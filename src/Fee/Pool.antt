-- ===== src/Fee/Pool.antt =====
-- What `operate` of the naive fee contract does to the ledger.
use slipstream_contracts.Common.{ℕ, ◌+◌, ◌≡◌, refl, ◌≢◌, Bool, true, some, unwrap_or}
use slipstream_contracts.Common.Int.{ℤ, pos, ◌+ℤ◌}
use slipstream_contracts.Host.{Slot, persistent, Ledger, run}
use slipstream_contracts.Host.Words.{fits_u64, fits_i128}
use slipstream_contracts.Fee.Naive

module _ {Address : Type 0} where
  abbrev pub naive_pool_slot : Slot (Naive.DataKey Address)
  naive_pool_slot = persistent Naive.fee_pool_key

  abbrev pub naive_ops_slot : Address → Slot (Naive.DataKey Address)
  naive_ops_slot a = persistent (Naive.op_count_key a)

  pub pool-ne-count : (a : Address) → naive_pool_slot ≢ naive_ops_slot a
  pool-ne-count a e = cc

  count-ne-pool : (a : Address) → naive_ops_slot a ≢ naive_pool_slot
  count-ne-pool a e = cc

  count-ne : {a b : Address} → a ≢ b → naive_ops_slot a ≢ naive_ops_slot b
  count-ne h e = h (cc)

module _ {Address : Type 0} (N : Ledger (Slot (Naive.DataKey Address)) Naive.Value) where
  open N use {State, read, write, key_eq, read-write_self, read-write_other}

  abbrev pub naive_pool : State → ℤ
  naive_pool t = unwrap_or (read naive_pool_slot t) (pos 0)

  abbrev pub naive_ops : Address → State → ℕ
  naive_ops a t = unwrap_or (read (naive_ops_slot a) t) 0

  abbrev pub naive_operated : Address → State → State
  naive_operated a t =
      write naive_pool_slot (naive_pool t +ℤ Naive.fee_per_op)
        (write (naive_ops_slot a) (naive_ops a t + 1) t)

  pub run-naive_operate :
      (authorized : Address → Bool) (a : Address) (t : State)
      → authorized a ≡ true
      → fits_u64 (naive_ops a t + 1) ≡ true
      → fits_i128 (naive_pool t +ℤ Naive.fee_per_op) ≡ true
      → run N authorized (Naive.operate a) t ≡ some (tt, naive_operated a t)
  unfolding Naive.operate
  run-naive_operate authorized a t signed f g = rw signed (
      rw f (
        rw
          (read-write_other naive_pool_slot (naive_ops_slot a) (naive_ops a t + 1) t
            (pool-ne-count a))
          (rw g refl)))

  pub naive_pool-operated :
      (a : Address) (t : State) → naive_pool (naive_operated a t) ≡ naive_pool t +ℤ Naive.fee_per_op
  naive_pool-operated a t =
      rw
        (read-write_self naive_pool_slot (naive_pool t +ℤ Naive.fee_per_op)
          (write (naive_ops_slot a) (naive_ops a t + 1) t))
        refl

  pub naive_ops-operated :
      (a : Address) (t : State) → naive_ops a (naive_operated a t) ≡ naive_ops a t + 1
  naive_ops-operated a t =
      rw
        (
          read-write_other (naive_ops_slot a) naive_pool_slot (naive_pool t +ℤ Naive.fee_per_op)
              (write (naive_ops_slot a) (naive_ops a t + 1) t) (count-ne-pool a),
          read-write_self (naive_ops_slot a) (naive_ops a t + 1) t,
        )
        refl

  pub naive_ops-operated_other :
      (a b : Address) (t : State) → b ≢ a → naive_ops b (naive_operated a t) ≡ naive_ops b t
  naive_ops-operated_other a b t n =
      rw
        (
          read-write_other (naive_ops_slot b) naive_pool_slot (naive_pool t +ℤ Naive.fee_per_op)
              (write (naive_ops_slot a) (naive_ops a t + 1) t) (count-ne-pool b),
          read-write_other (naive_ops_slot b) (naive_ops_slot a) (naive_ops a t + 1) t (count-ne n),
        )
        refl
