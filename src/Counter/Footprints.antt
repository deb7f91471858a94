-- ===== src/Counter/Footprints.antt =====
-- Which increments of pattern 01 conflict.
use slipstream_contracts.Common.{
  ℕ, ◌+◌, ◌<◌, ◌≡◌, refl, sym, ap, ◌∙◌, ◌≢◌, ◌↔◌, inl, inr, Bool, true, [], ◌∷◌, unwrap_or, leb,
  lt→leb, Bool-cases,
}
use slipstream_contracts.Host.{Slot, persistent, Ledger}
use slipstream_contracts.Host.Words.{fits_u64}
use slipstream_contracts.Host.Footprint.{reads, writes, Within, Commute, Conflict}
use slipstream_contracts.Host.Footprint.Independence.{Commute-apart}
use slipstream_contracts.Counter.Naive
use slipstream_contracts.Counter.Sharded
use slipstream_contracts.Counter.Sharded.{n_shards, shard_slot}
use slipstream_contracts.Counter.Sharded.Total.{shard_value, shard_slot-ne}

module _ {Address : Type 0} (authorized : Address → Bool) where
  module _ (L : Ledger (Slot Sharded.DataKey) Sharded.Value) where
    open L use {State}

    -- An increment touches its own shard at most.
    pub increment-Within :
        (i : ℕ) (s : State) → Within L authorized (shard_slot i ∷ []) (Sharded.increment i) s
    unfolding Sharded.increment
    increment-Within i s = elim (Bool-cases (leb n_shards i)) [
      | inl e ↦ rw e (tt, tt)
      | inr e ↦ rw e (elim (Bool-cases (fits_u64 (shard_value L authorized i s + 1))) [
        | inl f ↦ rw f ((inl refl, tt), (inl refl, tt))
        | inr f ↦ rw f ((inl refl, tt), tt)
      ])
    ]

    -- Increments of two different shards commute.
    increment-Commute :
        (i j : ℕ) (s : State)
        → i ≢ j
        → Commute L authorized (Sharded.increment i) (Sharded.increment j) s
    increment-Commute i j s h =
        Commute-apart L authorized (Sharded.increment i) (Sharded.increment j) s (shard_slot i ∷ [])
          (shard_slot j ∷ []) (increment-Within i s) (increment-Within j s)
          ((shard_slot-ne h, tt), tt)

    pub writes-increment :
        (i : ℕ) (s : State)
        → i < n_shards
        → fits_u64 (shard_value L authorized i s + 1) ≡ true
        → writes L authorized (Sharded.increment i) s ≡ shard_slot i ∷ []
    unfolding Sharded.increment
    writes-increment i s h fits = rw (lt→leb n_shards i h) (rw fits refl)

    reads-increment :
        (i : ℕ) (s : State)
        → i < n_shards
        → fits_u64 (shard_value L authorized i s + 1) ≡ true
        → reads L authorized (Sharded.increment i) s ≡ shard_slot i ∷ []
    unfolding Sharded.increment
    reads-increment i s h fits = rw (lt→leb n_shards i h) (rw fits refl)

    -- Two increments that succeed conflict exactly when they are on the same shard.
    increment-Conflict_iff :
        (i j : ℕ) (s : State)
        → i < n_shards
        → j < n_shards
        → fits_u64 (shard_value L authorized i s + 1) ≡ true
        → fits_u64 (shard_value L authorized j s + 1) ≡ true
        → Conflict L authorized (Sharded.increment i) (Sharded.increment j) s ↔ (i ≡ j)
    increment-Conflict_iff i j s hi hj fi fj =
        rw
          (
            writes-increment i s hi fi,
            reads-increment i s hi fi,
            writes-increment j s hj fj,
            reads-increment j s hj fj,
          )
          (
            elim [
              | inl (k, inl p, inl q) ↦ same (sym p ∙ q)
              | inl (k, inl p, inr (inl q)) ↦ same (sym p ∙ q)
              | inl (k, inl p, inr (inr m)) ↦ absurd m
              | inl (k, inr m, _) ↦ absurd m
              | inr (k, inl p, inl q) ↦ same (sym q ∙ p)
              | inr (k, inl p, inr m) ↦ absurd m
              | inr (k, inr m, _) ↦ absurd m
            ],
            λ e. inl (shard_slot i, inl refl, inl (ap shard_slot e)),
          )
      where
        same : shard_slot i ≡ shard_slot j → i ≡ j
        same e = cc

  module _ (L : Ledger (Slot Naive.DataKey) Naive.Value) where
    open L use {State, read}

    -- Any two increments of the naive counter conflict, as long as the counter does not overflow.
    naive_increment-Conflict :
        (s : State)
        → fits_u64 (unwrap_or (read (persistent Naive.counter) s) 0 + 1) ≡ true
        → Conflict L authorized Naive.increment Naive.increment s
    unfolding Naive.increment
    naive_increment-Conflict s fits = rw fits (inl (persistent Naive.counter, inl refl, inl refl))
