-- ===== src/Counter/Refinement.antt =====
-- The sharded counter against the naive one, and against the number of increments.
use slipstream_contracts.Common.{
  ℕ, suc, ◌+◌, ◌<◌, ◌≡◌, refl, sym, ◌∙◌, Bool, true, some, List, [], ◌∷◌, map, All, length, arith,
  unwrap_or, ap,
}
use slipstream_contracts.Host.{Slot, persistent, Ledger, run}
use slipstream_contracts.Host.Words.{fits_u64, fits_u64-le}
use slipstream_contracts.Host.Footprint.{result, after, after_all, returned}
use slipstream_contracts.Counter.Naive
use slipstream_contracts.Counter.Sharded
use slipstream_contracts.Counter.Sharded.{n_shards}
use slipstream_contracts.Counter.Sharded.Total.{
  count, shard_value-le-count, increment-count, total_lem,
}

module _ {Address : Type 0} (authorized : Address → Bool) where
  module _ (L : Ledger (Slot Sharded.DataKey) Sharded.Value) where
    open L use {State}

    pub count-after_all :
        (picks : List ℕ) (s : State)
        → All (λ i. i < n_shards) picks
        → fits_u64 (count L authorized s + length picks) ≡ true
        → count L authorized (after_all L authorized (map Sharded.increment picks) s)
          ≡ count L authorized s + length picks
    count-after_all [] s h fits = omega arith
    count-after_all (i ∷ picks) s h fits =
        let step =
          increment-count L authorized i s h.0
            (fits_u64-le _ _ (omega (arith, shard_value-le-count L authorized i s h.0)) fits) in
        let s' = after L authorized (Sharded.increment i) s in
        let e : count L authorized s + suc (length picks) ≡ count L authorized s' + length picks =
          omega (arith, step.1) in
        rw e (count-after_all picks s' h.1 (rw e at fits))

    -- However the increments are spread over the shards, `total` counts each of them once.
    pub total-increments :
        (picks : List ℕ) (s : State)
        → All (λ i. i < n_shards) picks
        → fits_u64 (count L authorized s + length picks) ≡ true
        → result L authorized Sharded.total (after_all L authorized (map Sharded.increment picks) s)
          ≡ some (count L authorized s + length picks)
    total-increments picks s h fits =
        let e = count-after_all picks s h fits in
        let t = after_all L authorized (map Sharded.increment picks) s in
        let r : run L authorized Sharded.total t ≡ some (count L authorized s + length picks, t) =
          rw (total_lem L authorized t, e, fits) refl in
        (returned L authorized Sharded.total t r).0

  module _ (L : Ledger (Slot Naive.DataKey) Naive.Value) where
    open L use {State, read, write, read-write_self}

    abbrev pub naive_value : State → ℕ
    naive_value s = unwrap_or (read (persistent Naive.counter) s) 0

    run-naive_increment :
        (s : State)
        → fits_u64 (naive_value s + 1) ≡ true
        → run L authorized Naive.increment s
          ≡ some (naive_value s + 1, write (persistent Naive.counter) (naive_value s + 1) s)
    unfolding Naive.increment
    run-naive_increment s fits = rw fits refl

    pub naive_total-increments :
        (picks : List ℕ) (s : State)
        → fits_u64 (naive_value s + length picks) ≡ true
        → result L authorized Naive.total
            (after_all L authorized (map (λ _. Naive.increment) picks) s)
          ≡ some (naive_value s + length picks)
    unfolding Naive.total
    naive_total-increments [] s fits = ap some (omega arith)
    naive_total-increments (i ∷ picks) s fits =
        let s' = after L authorized Naive.increment s in
        let r =
          returned L authorized Naive.increment s
            (run-naive_increment s (fits_u64-le _ _ (omega arith) fits)) in
        let v : naive_value s' ≡ naive_value s + 1 =
          rw (r.1, read-write_self (persistent Naive.counter) (naive_value s + 1) s) refl in
        let e : naive_value s + suc (length picks) ≡ naive_value s' + length picks =
          omega (arith, v) in
        rw e (naive_total-increments picks s' (rw e at fits))

  -- The two contracts count alike: from equal totals, the same number of increments, on whatever
  -- shards in range, leaves equal totals, as long as the total is a `u64`.
  pub sharded-refines-naive :
      (L : Ledger (Slot Sharded.DataKey) Sharded.Value) (s : L.State)
      (N : Ledger (Slot Naive.DataKey) Naive.Value) (t : N.State) (picks : List ℕ)
      → All (λ i. i < n_shards) picks
      → count L authorized s ≡ naive_value N t
      → fits_u64 (count L authorized s + length picks) ≡ true
      → result L authorized Sharded.total (after_all L authorized (map Sharded.increment picks) s)
        ≡ result N authorized Naive.total
            (after_all N authorized (map (λ _. Naive.increment) picks) t)
  sharded-refines-naive L s N t picks h same fits =
      total-increments L picks s h fits
      ∙ ap (λ n. some (n + length picks)) same
      ∙ sym (naive_total-increments N picks t (rw same at fits))
