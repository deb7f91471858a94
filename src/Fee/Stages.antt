-- ===== src/Fee/Stages.antt =====
-- The stages that operations and sweeps of pattern 03 take.
use mathlib.Core.List.{Permᴰ}
use slipstream_contracts.Common.{
  ◌≤◌, refl, ◌≢◌, inl, inr, Bool, List, [], ◌∷◌, map, All-of, All-in, All-map, Apart, Distinct,
  Disjoint, flattened, length,
}
use slipstream_contracts.Host.{Slot, Ledger}
use slipstream_contracts.Host.Footprint.{Within, IsStage, IsSchedule}
use slipstream_contracts.Host.Footprint.Stage.{
  OrderFree, stage-OrderFree, IsStage-Apart, Within->>=done,
}
use slipstream_contracts.Host.Footprint.Schedule.{Sets, length-flattened_le}
use slipstream_contracts.Fee.Naive
use slipstream_contracts.Fee.Lazy
use slipstream_contracts.Fee.Accrual.{
  ops_slot, accrued_slot, pool_slot, accrued-ne-ops, ops-ne-accrued, ops-ne, accrued-ne,
  pool-ne-accrued, pool-ne-ops,
}
use slipstream_contracts.Fee.Pool.{naive_pool_slot}
use slipstream_contracts.Fee.Footprints.{operate-Within, sweep-Within}
use slipstream_contracts.Fee.Refinement.{Event, operate, sweep, lazy_call}

module _ {Address : Type 0} where
  -- The keys of a call.
  abbrev pub event_keys : Event Address → List (Slot (Lazy.DataKey Address))
  event_keys (operate a) = ops_slot a ∷ accrued_slot a ∷ []
  event_keys (sweep a) = accrued_slot a ∷ pool_slot ∷ []

  operates-Disjoint :
      (a b : Address) → a ≢ b → Disjoint (event_keys (operate a)) (event_keys (operate b))
  operates-Disjoint a b n =
      ((ops-ne n, (ops-ne-accrued a b, tt)), ((accrued-ne-ops a b, (accrued-ne n, tt)), tt))

  pub sweep-operate-Disjoint :
      (a b : Address) → a ≢ b → Disjoint (event_keys (sweep a)) (event_keys (operate b))
  sweep-operate-Disjoint a b n =
      ((accrued-ne-ops a b, (accrued-ne n, tt)), ((pool-ne-ops b, (pool-ne-accrued b, tt)), tt))

  operates-Apart :
      (accounts : List Address) → Distinct accounts → Apart event_keys (map operate accounts)
  operates-Apart [] h = tt
  operates-Apart (a ∷ accounts) h = (
    All-map (λ e. Disjoint (event_keys (operate a)) (event_keys e)) operate accounts
        (All-of _ accounts λ b m. operates-Disjoint a b (All-in _ accounts h.0 m)),
    operates-Apart accounts h.1,
  )

module _ {Address : Type 0} (authorized : Address → Bool) where
  module _ (L : Ledger (Slot (Lazy.DataKey Address)) Lazy.Value) where
    open L use {State}

    lazy_call-Within :
        (e : Event Address) (s : State) → Within L authorized (event_keys e) (lazy_call e) s
    unfolding lazy_call
    lazy_call-Within (operate a) s = operate-Within authorized L a s
    lazy_call-Within (sweep a) s =
        Within->>=done L authorized (accrued_slot a ∷ pool_slot ∷ []) (Lazy.sweep a) _ s
          (sweep-Within authorized L a s)

    pub events-IsStage :
        (events : List (Event Address)) (s : State)
        → Apart event_keys events
        → IsStage L authorized (map lazy_call events) s
    events-IsStage events s h =
        IsStage-Apart L authorized lazy_call event_keys events s (λ e. lazy_call-Within e s) h

    -- In whatever order operations of different accounts and the sweep of one more account are
    -- made, each gets the answer that it gets alone, and every key ends up with what is left there
    -- when all of them run at once on the ledger that they start from.
    pub events-OrderFree :
        (swept : Address) (accounts : List Address) (events : List (Event Address)) (s : State)
        → Distinct (swept ∷ accounts)
        → Permᴰ (sweep swept ∷ map operate accounts) events
        → OrderFree L authorized lazy_call (sweep swept ∷ map operate accounts) events s
    events-OrderFree swept accounts events s h d =
        let apart : Apart event_keys (sweep swept ∷ map operate accounts) = (
          All-map (λ e. Disjoint (event_keys (sweep swept)) (event_keys e)) operate accounts
              (All-of _ accounts λ b m. sweep-operate-Disjoint swept b (All-in _ accounts h.0 m)),
          operates-Apart accounts h.1,
        ) in
        stage-OrderFree L authorized lazy_call (sweep swept ∷ map operate accounts) events s
          (events-IsStage (sweep swept ∷ map operate accounts) s apart) d

  Sets-naive_operate : (a : Address) → Sets naive_pool_slot (Naive.operate a)
  unfolding Naive.operate
  Sets-naive_operate a = λ o. inr (λ p. inl refl)

  -- A schedule of operations that pay into the one pool, where no two calls of a stage conflict and
  -- every call goes through, has at least as many stages as operations, whoever they are for.
  pub naive_operates_le :
      (N : Ledger (Slot (Naive.DataKey Address)) Naive.Value) (stages : List (List Address))
      (s : N.State)
      → IsSchedule N authorized (map (map Naive.operate) stages) s
      → length (flattened stages) ≤ length stages
  naive_operates_le N =
      length-flattened_le N authorized Naive.operate naive_pool_slot Sets-naive_operate
