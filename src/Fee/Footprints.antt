-- ===== src/Fee/Footprints.antt =====
-- Which calls of pattern 03 conflict.
use slipstream_contracts.Common.{◌+◌, ◌≡◌, refl, ◌≢◌, inl, inr, Bool, true, [], ◌∷◌, Bool-cases}
use slipstream_contracts.Common.Int.{pos, ◌+ℤ◌}
use slipstream_contracts.Host.{Slot, Ledger}
use slipstream_contracts.Host.Words.{fits_u64, fits_i128}
use slipstream_contracts.Host.Footprint.{reads, writes, Within, Commute, Conflict}
use slipstream_contracts.Host.Footprint.Independence.{Commute-apart}
use slipstream_contracts.Fee.Naive
use slipstream_contracts.Fee.Lazy
use slipstream_contracts.Fee.Lazy.{fee_per_op}
use slipstream_contracts.Fee.Accrual.{
  ops_slot, accrued_slot, pool_slot, ops, owed, pool, accrued-ne-ops, ops-ne-accrued, ops-ne,
  accrued-ne, pool-ne-accrued, ops-ne-pool, accrued-ne-pool,
}
use slipstream_contracts.Fee.Pool.{
  naive_pool_slot, naive_ops_slot, naive_ops, naive_pool, pool-ne-count,
}

module _ {Address : Type 0} (authorized : Address → Bool) where
  module _ (L : Ledger (Slot (Lazy.DataKey Address)) Lazy.Value) where
    open L use {State, read, read-write_other, write}

    pub operate-Within :
        (a : Address) (s : State)
        → Within L authorized (ops_slot a ∷ accrued_slot a ∷ []) (Lazy.operate a) s
    unfolding Lazy.operate
    operate-Within a s = elim (Bool-cases (authorized a)) [
      | inr e ↦ rw e (tt, tt)
      | inl e ↦ rw e (elim (Bool-cases (fits_u64 (ops L a s + 1))) [
        | inr f ↦ rw f ((inl refl, tt), tt)
        | inl f ↦ rw f (
            rw
              (read-write_other (accrued_slot a) (ops_slot a) (ops L a s + 1) s
                (accrued-ne-ops a a))
              (elim (Bool-cases (fits_i128 (owed L a s +ℤ fee_per_op))) [
                | inr g ↦ rw g ((inl refl, (inr (inl refl), tt)), (inl refl, tt))
                | inl g ↦ rw g ((inl refl, (inr (inl refl), tt)), (inl refl, (inr (inl refl), tt)))
              ]))
      ])
    ]

    pub sweep-Within :
        (a : Address) (s : State)
        → Within L authorized (accrued_slot a ∷ pool_slot ∷ []) (Lazy.sweep a) s
    unfolding Lazy.sweep
    sweep-Within a s =
        rw (read-write_other pool_slot (accrued_slot a) (pos 0) s (pool-ne-accrued a))
          (elim (Bool-cases (fits_i128 (pool L s +ℤ owed L a s))) [
            | inr g ↦ rw g ((inl refl, (inr (inl refl), tt)), (inl refl, tt))
            | inl g ↦ rw g ((inl refl, (inr (inl refl), tt)), (inl refl, (inr (inl refl), tt)))
          ])

    -- Operations of two different accounts commute.
    operate-Commute :
        (a b : Address) (s : State)
        → a ≢ b
        → Commute L authorized (Lazy.operate a) (Lazy.operate b) s
    operate-Commute a b s h =
        Commute-apart L authorized (Lazy.operate a) (Lazy.operate b) s
          (ops_slot a ∷ accrued_slot a ∷ []) (ops_slot b ∷ accrued_slot b ∷ []) (operate-Within a s)
          (operate-Within b s)
          ((ops-ne h, (ops-ne-accrued a b, tt)), ((accrued-ne-ops a b, (accrued-ne h, tt)), tt))

    -- An operation of one account and a sweep of another commute.
    operate-sweep-Commute :
        (a b : Address) (s : State) → a ≢ b → Commute L authorized (Lazy.operate a) (Lazy.sweep b) s
    operate-sweep-Commute a b s h =
        Commute-apart L authorized (Lazy.operate a) (Lazy.sweep b) s
          (ops_slot a ∷ accrued_slot a ∷ []) (accrued_slot b ∷ pool_slot ∷ []) (operate-Within a s)
          (sweep-Within b s)
          ((ops-ne-accrued a b, (ops-ne-pool a, tt)), ((accrued-ne h, (accrued-ne-pool a, tt)), tt))

    -- Two sweeps conflict on the pool, whoever is swept, where the first does not overflow.
    sweep-Conflict :
        (a b : Address) (s : State)
        → fits_i128 (pool L s +ℤ owed L a s) ≡ true
        → Conflict L authorized (Lazy.sweep a) (Lazy.sweep b) s
    unfolding Lazy.sweep
    sweep-Conflict a b s f =
        rw (read-write_other pool_slot (accrued_slot a) (pos 0) s (pool-ne-accrued a))
          (rw f (inl (pool_slot, inr (inl refl), inr (inl refl))))

  module _ (L : Ledger (Slot (Naive.DataKey Address)) Naive.Value) where
    open L use {State, read-write_other}

    module _ (a : Address) (s : State) (signed : authorized a ≡ true)
        (f : fits_u64 (naive_ops L a s + 1) ≡ true)
        (g : fits_i128 (naive_pool L s +ℤ Naive.fee_per_op) ≡ true) where
      writes-naive_operate :
          writes L authorized (Naive.operate a) s ≡ naive_ops_slot a ∷ naive_pool_slot ∷ []
      unfolding Naive.operate
      writes-naive_operate = rw signed (
          rw f (
            rw
              (read-write_other naive_pool_slot (naive_ops_slot a) (naive_ops L a s + 1) s
                (pool-ne-count a))
              (rw g refl)))

      reads-naive_operate :
          reads L authorized (Naive.operate a) s ≡ naive_ops_slot a ∷ naive_pool_slot ∷ []
      unfolding Naive.operate
      reads-naive_operate = rw signed (
          rw f (
            rw
              (read-write_other naive_pool_slot (naive_ops_slot a) (naive_ops L a s + 1) s
                (pool-ne-count a))
              (rw g refl)))

    -- Two signed operations of the naive contract conflict on the pool, whoever they are for,
    -- where neither overflows.
    naive_operate-Conflict :
        (a b : Address) (s : State)
        → authorized a ≡ true
        → authorized b ≡ true
        → fits_u64 (naive_ops L a s + 1) ≡ true
        → fits_u64 (naive_ops L b s + 1) ≡ true
        → fits_i128 (naive_pool L s +ℤ Naive.fee_per_op) ≡ true
        → Conflict L authorized (Naive.operate a) (Naive.operate b) s
    naive_operate-Conflict a b s ha hb fa fb g =
        rw (writes-naive_operate a s ha fa g, reads-naive_operate b s hb fb g)
          (inl (naive_pool_slot, inr (inl refl), inr (inl refl)))
