-- ===== src/Nonce/Stages.antt =====
-- The stages that calls of `next` of pattern 04 take.
use mathlib.Core.List.{Permᴰ}
use slipstream_contracts.Common.{
  ◌≤◌, refl, inl, Bool, List, [], ◌∷◌, map, Distinct, Apart-Distinct, flattened, length,
}
use slipstream_contracts.Host.{Slot, persistent, Ledger}
use slipstream_contracts.Host.Footprint.{IsSchedule}
use slipstream_contracts.Host.Footprint.Stage.{OrderFree, stage-OrderFree, IsStage-Apart}
use slipstream_contracts.Host.Footprint.Schedule.{Sets, length-flattened_le}
use slipstream_contracts.Nonce.Naive
use slipstream_contracts.Nonce.PerUser
use slipstream_contracts.Nonce.Freshness.{nonce_slot, nonce_slot-ne}
use slipstream_contracts.Nonce.Footprints.{next-Within}

module _ {Address : Type 0} (authorized : Address → Bool) where
  -- In whatever order nonces for different accounts are drawn, each account gets the nonce that it
  -- gets alone, or panics as it does alone, and every key ends up with what is left there when all
  -- of them run at once on the ledger that they start from.
  pub nexts-OrderFree :
      (L : Ledger (Slot (PerUser.DataKey Address)) PerUser.Value)
      (accounts accounts' : List Address) (s : L.State)
      → Distinct accounts
      → Permᴰ accounts accounts'
      → OrderFree L authorized PerUser.next accounts accounts' s
  nexts-OrderFree L accounts accounts' s h d =
      stage-OrderFree L authorized PerUser.next accounts accounts' s
        (IsStage-Apart L authorized PerUser.next (λ a. nonce_slot a ∷ []) accounts s
          (λ a. next-Within authorized L a s)
          (Apart-Distinct (λ a. nonce_slot a ∷ []) (λ a b n. ((nonce_slot-ne n, tt), tt)) accounts
            h))
        d

  Sets-naive_next : (i : Unit {0}) → Sets (persistent Naive.nonce) (Naive.next {Address = Address})
  unfolding Naive.next
  Sets-naive_next i = λ o. inl refl

  -- A schedule of draws from the one counter, where no two calls of a stage conflict and every call
  -- goes through, has at least as many stages as draws.
  naive_nexts_le :
      (N : Ledger (Slot Naive.DataKey) Naive.Value) (stages : List (List (Unit {0}))) (s : N.State)
      → IsSchedule N authorized (map (map (λ _. Naive.next)) stages) s
      → length (flattened stages) ≤ length stages
  naive_nexts_le N =
      length-flattened_le N authorized (λ _. Naive.next) (persistent Naive.nonce) Sets-naive_next
