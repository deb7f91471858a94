-- ===== src/Balance/Stages.antt =====
-- The stages that deposits and transfers of pattern 02 take.
use mathlib.Core.List.{Permᴰ}
use slipstream_contracts.Common.{
  ◌≤◌, refl, inl, Bool, List, [], ◌∷◌, map, Apart, Apart-map, flattened, length,
}
use slipstream_contracts.Host.{Slot, persistent, Ledger}
use slipstream_contracts.Host.Footprint.{Within, IsStage, IsSchedule}
use slipstream_contracts.Host.Footprint.Stage.{
  OrderFree, stage-OrderFree, IsStage-Apart, Within->>=done,
}
use slipstream_contracts.Host.Footprint.Schedule.{Sets, length-flattened_le}
use slipstream_contracts.Balance.Naive
use slipstream_contracts.Balance.Naive.{BalanceMap}
use slipstream_contracts.Balance.PerUser
use slipstream_contracts.Balance.PerUser.{DataKey, Value, balance_slot}
use slipstream_contracts.Balance.Transfer.{balance_slot-ne}
use slipstream_contracts.Balance.Footprints.{deposit-Within, transfer-Within}
use slipstream_contracts.Balance.Refinement.{
  Operation, deposit, transfer, naive_call, per_user_call,
}

-- The accounts that an operation names.
abbrev pub accounts : {Address : Type 0} → Operation Address → List Address
accounts (deposit to amount) = to ∷ []
accounts (transfer from to amount) = from ∷ to ∷ []

module _ {Address : Type 0} (authorized : Address → Bool) where
  module _ (L : Ledger (Slot (DataKey Address)) Value) where
    open L use {State}

    per_user_call-Within :
        (op : Operation Address) (s : State)
        → Within L authorized (map balance_slot (accounts op)) (per_user_call op) s
    unfolding per_user_call
    per_user_call-Within (deposit to amount) s =
        Within->>=done L authorized (balance_slot to ∷ []) (PerUser.deposit to amount) _ s
          (deposit-Within authorized L to amount s)
    per_user_call-Within (transfer from to amount) s =
        Within->>=done L authorized (balance_slot from ∷ balance_slot to ∷ [])
          (PerUser.transfer from to amount) _ s (transfer-Within authorized L from to amount s)

    pub operations-IsStage :
        (ops : List (Operation Address)) (s : State)
        → Apart accounts ops
        → IsStage L authorized (map per_user_call ops) s
    operations-IsStage ops s h =
        IsStage-Apart L authorized per_user_call (λ op. map balance_slot (accounts op)) ops s
          (λ op. per_user_call-Within op s)
          (Apart-map balance_slot (λ a b. balance_slot-ne) accounts ops h)

    -- In whatever order deposits and transfers of which no two share an account are made, each gets
    -- the answer that it gets alone, a panic included, and every key ends up with what is left
    -- there when all of them run at once on the ledger that they start from.
    pub operations-OrderFree :
        (ops ops' : List (Operation Address)) (s : State)
        → Apart accounts ops
        → Permᴰ ops ops'
        → OrderFree L authorized per_user_call ops ops' s
    operations-OrderFree ops ops' s h d =
        stage-OrderFree L authorized per_user_call ops ops' s (operations-IsStage ops s h) d

  module _ (M : BalanceMap Address) (N : Ledger (Slot Naive.DataKey) (Naive.Value M)) where
    Sets-naive_call : (op : Operation Address) → Sets (persistent Naive.balances) (naive_call M op)
    unfolding naive_call Naive.deposit Naive.transfer
    Sets-naive_call (deposit to amount) = λ o. inl refl
    Sets-naive_call (transfer from to amount) = λ o. inl refl

    -- A schedule of deposits and transfers on the one map, where no two calls of a stage conflict
    -- and every call goes through, has at least as many stages as calls, whoever they are for.
    pub naive_operations_le :
        (stages : List (List (Operation Address))) (s : N.State)
        → IsSchedule N authorized (map (map (naive_call M)) stages) s
        → length (flattened stages) ≤ length stages
    naive_operations_le =
        length-flattened_le N authorized (naive_call M) (persistent Naive.balances) Sets-naive_call
