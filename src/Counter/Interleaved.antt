-- ===== src/Counter/Interleaved.antt =====
-- Increments of pattern 01 that run at the same time, one host access after the other.
use slipstream_contracts.Common.{
  ℕ, ◌+◌, ◌<◌, ◌≡◌, ◌∙◌, Bool, true, some, List, map, All, Distinct, flattened, flattened-map,
  All-flattened, subst, length, arith, Result,
}
use slipstream_contracts.Host.{Slot, Ledger}
use slipstream_contracts.Host.Words.{fits_u64, fits_u64-le}
use slipstream_contracts.Host.Footprint.{result}
use slipstream_contracts.Host.Footprint.Interleave.Stages.{Runs, Runs-Serial, Serial-result}
use slipstream_contracts.Host.Footprint.Interleave.Serial.{Serial}
use slipstream_contracts.Counter.Sharded
use slipstream_contracts.Counter.Sharded.{n_shards}
use slipstream_contracts.Counter.Sharded.Total.{count}
use slipstream_contracts.Counter.Stages.{increments-IsSchedule_iff}
use slipstream_contracts.Counter.Refinement.{total-increments}

module _ {Address : Type 0} (authorized : Address → Bool) where
  module _ (L : Ledger (Slot Sharded.DataKey) Sharded.Value) where
    open L use {State}

    -- Stages of increments of shards in range run one after the other, no shard twice in a stage,
    -- with room for one more than the total afterwards. The increments of a stage run at the same
    -- time. Whatever the order of their host accesses, once all have answered, `total` has grown by
    -- the number of increments, and the answers and the ledger are those of the increments one
    -- after the other.
    pub increments-Serial :
        (stages : List (List ℕ)) (s : State) (answers : List (List (Result ℕ Sharded.Error)))
        (t : State)
        → All (All (λ i. i < n_shards)) stages
        → All Distinct stages
        → fits_u64 (count L authorized s + length (flattened stages) + 1) ≡ true
        → Runs L authorized (map (map Sharded.increment) stages) s answers t
        → (result L authorized Sharded.total t
            ≡ some (count L authorized s + length (flattened stages)))
          × Serial L authorized (map Sharded.increment (flattened stages)) s (flattened answers) t
    increments-Serial stages s answers t r h fits runs =
        let calls = map Sharded.increment (flattened stages) in
        let serial : Serial L authorized calls s (flattened answers) t =
          subst (λ calls. Serial L authorized calls s (flattened answers) t)
            (flattened-map Sharded.increment stages)
            (Runs-Serial L authorized (map (map Sharded.increment) stages) s answers t
              ((increments-IsSchedule_iff authorized L stages s r fits).1 h) runs) in
        let total =
          total-increments authorized L (flattened stages) s
            (All-flattened (λ i. i < n_shards) stages r) (fits_u64-le _ _ (omega arith) fits) in
        (
          Serial-result L authorized Sharded.total calls s (flattened answers) t serial ∙ total,
          serial,
        )
