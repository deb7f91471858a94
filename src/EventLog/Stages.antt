-- ===== src/EventLog/Stages.antt =====
-- The stages that appends of pattern 06 take.
use mathlib.Core.List.{Permᴰ}
use slipstream_contracts.Common.{
  ℕ, ◌≤◌, refl, inl, inr, Bool, List, [], ◌∷◌, map, Distinct, Apart-by, flattened, length,
}
use slipstream_contracts.Host.{Slot, Ledger}
use slipstream_contracts.Host.Footprint.{IsStage, IsSchedule}
use slipstream_contracts.Host.Footprint.Stage.{OrderFree, stage-OrderFree, IsStage-Apart}
use slipstream_contracts.Host.Footprint.Schedule.{Sets, length-flattened_le}
use slipstream_contracts.EventLog.Naive
use slipstream_contracts.EventLog.Segmented
use slipstream_contracts.EventLog.Segmented.{tail_slot, entry_slot}
use slipstream_contracts.EventLog.Segments.{
  tail_of, tail_slot-ne, entry-ne-tail, tail-ne-entry, entry_slot-ne_segment,
}
use slipstream_contracts.EventLog.Footprints.{append-Within}
use slipstream_contracts.EventLog.History

module _ {Message Address : Type 0} (authorized : Address → Bool) where
  module _ (L : Ledger (Slot Segmented.DataKey) (Segmented.Value Message)) where
    open L use {State}

    abbrev keys : State → ℕ × Message → List (Slot Segmented.DataKey)
    keys s (g, msg) = tail_slot g ∷ entry_slot g (tail_of L authorized g s) ∷ []

    pub appends-IsStage :
        (appends : List (ℕ × Message)) (s : State)
        → Distinct (map (λ a. a.0) appends)
        → IsStage L authorized (map (λ a. Segmented.append a.0 a.1) appends) s
    appends-IsStage appends s h =
        IsStage-Apart L authorized (λ a. Segmented.append a.0 a.1) (keys s) appends s
          (λ a. append-Within authorized L a.0 a.1 s)
          (Apart-by (keys s) (λ a. a.0)
            (λ a b n. (
              (tail_slot-ne n, (tail-ne-entry a.0 b.0 (tail_of L authorized b.0 s), tt)),
              (
                (entry-ne-tail a.0 (tail_of L authorized a.0 s) b.0, (entry_slot-ne_segment n, tt)),
                tt,
              ),
            ))
            appends h)

    -- In whatever order appends to different segments are made, each gets the index, the error or
    -- the panic that it gets alone, and every key ends up with what is left there when all of them
    -- run at once on the ledger that they start from.
    pub appends-OrderFree :
        (appends appends' : List (ℕ × Message)) (s : State)
        → Distinct (map (λ a. a.0) appends)
        → Permᴰ appends appends'
        → OrderFree L authorized (λ a. Segmented.append a.0 a.1) appends appends' s
    appends-OrderFree appends appends' s h d =
        stage-OrderFree L authorized (λ a. Segmented.append a.0 a.1) appends appends' s
          (appends-IsStage appends s h) d

  Sets-naive_append :
      (msg : Message) → Sets History.tail_slot (Naive.append {Address = Address} msg)
  unfolding Naive.append
  Sets-naive_append msg = λ o. inr (inl refl)

  -- A schedule of appends to the one log, where no two calls of a stage conflict and every call
  -- goes through, has at least as many stages as appends.
  naive_appends_le :
      (N : Ledger (Slot Naive.DataKey) (Naive.Value Message)) (stages : List (List Message))
      (s : N.State)
      → IsSchedule N authorized (map (map Naive.append) stages) s
      → length (flattened stages) ≤ length stages
  naive_appends_le N =
      length-flattened_le N authorized Naive.append History.tail_slot Sets-naive_append
