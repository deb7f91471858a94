-- ===== src/Fee/Accrual.antt =====
-- What `operate` and `sweep` of the lazy contract do to the ledger.
use slipstream_contracts.Common.{ℕ, ◌+◌, ◌≡◌, refl, ◌≢◌, Bool, true, some, unwrap_or}
use slipstream_contracts.Common.Int.{ℤ, pos, ◌+ℤ◌}
use slipstream_contracts.Host.{Slot, persistent, Ledger, run}
use slipstream_contracts.Host.Words.{fits_u64, fits_i128}
use slipstream_contracts.Fee.Lazy
use slipstream_contracts.Fee.Lazy.{
  DataKey, Value, op_count_key, accrued_fee_key, fee_pool_key, fee_per_op,
}

module _ {Address : Type 0} where
  abbrev pub ops_slot : Address → Slot (DataKey Address)
  ops_slot a = persistent (op_count_key a)

  abbrev pub accrued_slot : Address → Slot (DataKey Address)
  accrued_slot a = persistent (accrued_fee_key a)

  abbrev pub pool_slot : Slot (DataKey Address)
  pool_slot = persistent fee_pool_key

  -- The keys of the contract are told apart.
  pub accrued-ne-ops : (a b : Address) → accrued_slot a ≢ ops_slot b
  accrued-ne-ops a b e = cc

  pub ops-ne-accrued : (a b : Address) → ops_slot a ≢ accrued_slot b
  ops-ne-accrued a b e = cc

  pub pool-ne-ops : (a : Address) → pool_slot ≢ ops_slot a
  pool-ne-ops a e = cc

  pub pool-ne-accrued : (a : Address) → pool_slot ≢ accrued_slot a
  pool-ne-accrued a e = cc

  pub ops-ne-pool : (a : Address) → ops_slot a ≢ pool_slot
  ops-ne-pool a e = cc

  pub accrued-ne-pool : (a : Address) → accrued_slot a ≢ pool_slot
  accrued-ne-pool a e = cc

  pub ops-ne : {a b : Address} → a ≢ b → ops_slot a ≢ ops_slot b
  ops-ne h e = h (cc)

  pub accrued-ne : {a b : Address} → a ≢ b → accrued_slot a ≢ accrued_slot b
  accrued-ne h e = h (cc)

module _ {Address : Type 0} (L : Ledger (Slot (DataKey Address)) Value) where
  open L use {State, read, write, read-write_self, read-write_other}

  abbrev pub pool : State → ℤ
  pool s = unwrap_or (read pool_slot s) (pos 0)

  abbrev pub owed : Address → State → ℤ
  owed a s = unwrap_or (read (accrued_slot a) s) (pos 0)

  abbrev pub ops : Address → State → ℕ
  ops a s = unwrap_or (read (ops_slot a) s) 0

  -- The ledger after an operation, and after a sweep.
  abbrev pub operated : Address → State → State
  operated a s =
      write (accrued_slot a) (owed a s +ℤ fee_per_op) (write (ops_slot a) (ops a s + 1) s)

  abbrev pub swept : Address → State → State
  swept a s = write pool_slot (pool s +ℤ owed a s) (write (accrued_slot a) (pos 0) s)

  module _ (authorized : Address → Bool) (a : Address) (s : State) where
    pub run-operate :
        authorized a ≡ true
        → fits_u64 (ops a s + 1) ≡ true
        → fits_i128 (owed a s +ℤ fee_per_op) ≡ true
        → run L authorized (Lazy.operate a) s ≡ some (tt, operated a s)
    unfolding Lazy.operate
    run-operate signed f g = rw signed (
        rw f (
          rw (read-write_other (accrued_slot a) (ops_slot a) (ops a s + 1) s (accrued-ne-ops a a))
            (rw g refl)))

    pub run-sweep :
        fits_i128 (pool s +ℤ owed a s) ≡ true
        → run L authorized (Lazy.sweep a) s ≡ some (pool s +ℤ owed a s, swept a s)
    unfolding Lazy.sweep
    run-sweep f =
        rw (read-write_other pool_slot (accrued_slot a) (pos 0) s (pool-ne-accrued a)) (rw f refl)

  module _ (a : Address) (s : State) where
    pub pool-operated : pool (operated a s) ≡ pool s
    pool-operated =
        rw
          (
            read-write_other pool_slot (accrued_slot a) (owed a s +ℤ fee_per_op)
                (write (ops_slot a) (ops a s + 1) s) (pool-ne-accrued a),
            read-write_other pool_slot (ops_slot a) (ops a s + 1) s (pool-ne-ops a),
          )
          refl

    pub owed-operated : owed a (operated a s) ≡ owed a s +ℤ fee_per_op
    owed-operated =
        rw
          (read-write_self (accrued_slot a) (owed a s +ℤ fee_per_op)
            (write (ops_slot a) (ops a s + 1) s))
          refl

    pub owed-operated_other : (b : Address) → b ≢ a → owed b (operated a s) ≡ owed b s
    owed-operated_other b n =
        rw
          (
            read-write_other (accrued_slot b) (accrued_slot a) (owed a s +ℤ fee_per_op)
                (write (ops_slot a) (ops a s + 1) s) (accrued-ne n),
            read-write_other (accrued_slot b) (ops_slot a) (ops a s + 1) s (accrued-ne-ops b a),
          )
          refl

    pub ops-operated : ops a (operated a s) ≡ ops a s + 1
    ops-operated =
        rw
          (
            read-write_other (ops_slot a) (accrued_slot a) (owed a s +ℤ fee_per_op)
                (write (ops_slot a) (ops a s + 1) s) (ops-ne-accrued a a),
            read-write_self (ops_slot a) (ops a s + 1) s,
          )
          refl

    pub ops-operated_other : (b : Address) → b ≢ a → ops b (operated a s) ≡ ops b s
    ops-operated_other b n =
        rw
          (
            read-write_other (ops_slot b) (accrued_slot a) (owed a s +ℤ fee_per_op)
                (write (ops_slot a) (ops a s + 1) s) (ops-ne-accrued b a),
            read-write_other (ops_slot b) (ops_slot a) (ops a s + 1) s (ops-ne n),
          )
          refl

    pub pool-swept : pool (swept a s) ≡ pool s +ℤ owed a s
    pool-swept =
        rw (read-write_self pool_slot (pool s +ℤ owed a s) (write (accrued_slot a) (pos 0) s)) refl

    pub owed-swept : owed a (swept a s) ≡ pos 0
    owed-swept =
        rw
          (
            read-write_other (accrued_slot a) pool_slot (pool s +ℤ owed a s)
                (write (accrued_slot a) (pos 0) s) (accrued-ne-pool a),
            read-write_self (accrued_slot a) (pos 0) s,
          )
          refl

    pub owed-swept_other : (b : Address) → b ≢ a → owed b (swept a s) ≡ owed b s
    owed-swept_other b n =
        rw
          (
            read-write_other (accrued_slot b) pool_slot (pool s +ℤ owed a s)
                (write (accrued_slot a) (pos 0) s) (accrued-ne-pool b),
            read-write_other (accrued_slot b) (accrued_slot a) (pos 0) s (accrued-ne n),
          )
          refl

    pub ops-swept : (b : Address) → ops b (swept a s) ≡ ops b s
    ops-swept b =
        rw
          (
            read-write_other (ops_slot b) pool_slot (pool s +ℤ owed a s)
                (write (accrued_slot a) (pos 0) s) (ops-ne-pool b),
            read-write_other (ops_slot b) (accrued_slot a) (pos 0) s (ops-ne-accrued b a),
          )
          refl
