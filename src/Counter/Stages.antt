-- ===== src/Counter/Stages.antt =====
-- The stages that increments of pattern 01 take.
use mathlib.Core.List.{Permᴰ}
use slipstream_contracts.Common.{
  ℕ, ◌+◌, ◌<◌, ◌≤◌, ◌≡◌, refl, sym, subst, ◌≢◌, ◌↔◌, inl, Bool, true, none, List, [], ◌∷◌, map, All,
  All-of, All-in, map-All, In, Distinct, Apart-Distinct, flattened, length, length-append, arith,
  ne-none,
}
use slipstream_contracts.Host.{Slot, persistent, Ledger}
use slipstream_contracts.Host.Words.{fits_u64, fits_u64-le}
use slipstream_contracts.Host.Footprint.{
  writes, result, after_all, Independent, IsStage, IsSchedule,
}
use slipstream_contracts.Host.Footprint.Stage.{OrderFree, stage-OrderFree, IsStage-Apart}
use slipstream_contracts.Host.Footprint.Schedule.{Sets, length-flattened_le, not-Independent}
use slipstream_contracts.Counter.Naive
use slipstream_contracts.Counter.Sharded
use slipstream_contracts.Counter.Sharded.{n_shards, shard_slot}
use slipstream_contracts.Counter.Sharded.Total.{
  count, shard_value, shard_slot-ne, shard_value-le-count, increment-count,
}
use slipstream_contracts.Counter.Footprints.{increment-Within, writes-increment}
use slipstream_contracts.Counter.Refinement.{count-after_all}

module _ {Address : Type 0} (authorized : Address → Bool) where
  module _ (L : Ledger (Slot Sharded.DataKey) Sharded.Value) where
    open L use {State}

    increments-IsStage :
        (shards : List ℕ) (s : State)
        → Distinct shards
        → IsStage L authorized (map Sharded.increment shards) s
    increments-IsStage shards s h =
        IsStage-Apart L authorized Sharded.increment (λ i. shard_slot i ∷ []) shards s
          (λ i. increment-Within authorized L i s)
          (Apart-Distinct (λ i. shard_slot i ∷ []) (λ i j n. ((shard_slot-ne n, tt), tt)) shards h)

    -- In whatever order increments of different shards are made, each gets the answer that it gets
    -- alone, and every key ends up with what is left there when all of them run at once on the
    -- ledger that they start from.
    pub increments-OrderFree :
        (shards shards' : List ℕ) (s : State)
        → Distinct shards
        → Permᴰ shards shards'
        → OrderFree L authorized Sharded.increment shards shards' s
    increments-OrderFree shards shards' s h =
        stage-OrderFree L authorized Sharded.increment shards shards' s
          (increments-IsStage shards s h)

    same_shard :
        (i j : ℕ) (s : State)
        → i < n_shards
        → fits_u64 (shard_value L authorized i s + 1) ≡ true
        → Independent L authorized (Sharded.increment i) (Sharded.increment j) s
        → i ≢ j
    same_shard i j s h fits free e =
        let own : In (shard_slot i) (writes L authorized (Sharded.increment i) s) =
          rw (writes-increment authorized L i s h fits) (inl refl) in
        not-Independent L authorized (Sharded.increment i) (Sharded.increment i) s (shard_slot i)
          own own
          (subst (λ j. Independent L authorized (Sharded.increment i) (Sharded.increment j) s)
            (sym e) free)

    IsStage-Distinct :
        (shards : List ℕ) (s : State)
        → All (λ i. i < n_shards) shards
        → fits_u64 (count L authorized s + 1) ≡ true
        → IsStage L authorized (map Sharded.increment shards) s
        → Distinct shards
    IsStage-Distinct [] s r f h = tt
    IsStage-Distinct (i ∷ shards) s r f h = (
      All-of _ shards λ j m.
          same_shard i j s r.0
            (fits_u64-le _ _ (omega (arith, shard_value-le-count L authorized i s r.0)) f)
            (All-in _ shards
              (map-All (λ q. Independent L authorized (Sharded.increment i) q s) Sharded.increment
                shards h.0)
              m),
      IsStage-Distinct shards s r.1 f h.1,
    )

    increments-succeed :
        (shards : List ℕ) (s : State)
        → All (λ i. i < n_shards) shards
        → fits_u64 (count L authorized s + 1) ≡ true
        → All (λ p. result L authorized p s ≢ none) (map Sharded.increment shards)
    increments-succeed [] s r f = tt
    increments-succeed (i ∷ shards) s r f =
        let returns =
          increment-count L authorized i s r.0
            (fits_u64-le _ _ (omega (arith, shard_value-le-count L authorized i s r.0)) f) in
        (
          ne-none (result L authorized (Sharded.increment i) s) returns.0,
          increments-succeed shards s r.1 f,
        )

    -- Stages of increments of shards in range, fewer in all than the total can still grow, are a
    -- schedule, where no two calls of a stage conflict and every call goes through, exactly when no
    -- stage has a shard twice.
    pub increments-IsSchedule_iff :
        (stages : List (List ℕ)) (s : State)
        → All (All (λ i. i < n_shards)) stages
        → fits_u64 (count L authorized s + length (flattened stages) + 1) ≡ true
        → IsSchedule L authorized (map (map Sharded.increment) stages) s ↔ All Distinct stages
    increments-IsSchedule_iff [] s r f = ((λ _. tt), (λ _. tt))
    increments-IsSchedule_iff (shards ∷ stages) s r f =
        let s' = after_all L authorized (map Sharded.increment shards) s in
        let n = length-append shards (flattened stages) in
        let f1 = fits_u64-le (count L authorized s + 1) _ (omega arith) f in
        let grown =
          count-after_all authorized L shards s r.0 (fits_u64-le _ _ (omega (arith, n)) f) in
        let rest =
          increments-IsSchedule_iff stages s' r.1 (fits_u64-le _ _ (omega (arith, n, grown)) f) in
        (
          (λ h. (IsStage-Distinct shards s r.0 f1 h.0, rest.0 h.2)),
          (λ h. (increments-IsStage shards s h.0, increments-succeed shards s r.0 f1, rest.1 h.1)),
        )

  module _ (L : Ledger (Slot Naive.DataKey) Naive.Value) where
    Sets-naive_increment :
        (i : Unit {0}) → Sets (persistent Naive.counter) (Naive.increment {Address = Address})
    unfolding Naive.increment
    Sets-naive_increment i = λ o. inl refl

    -- A schedule of increments of the naive counter, where no two calls of a stage conflict and
    -- every call goes through, has at least as many stages as increments.
    pub naive_increments_le :
        (stages : List (List (Unit {0}))) (s : L.State)
        → IsSchedule L authorized (map (map (λ _. Naive.increment)) stages) s
        → length (flattened stages) ≤ length stages
    naive_increments_le =
        length-flattened_le L authorized (λ _. Naive.increment) (persistent Naive.counter)
          Sets-naive_increment
