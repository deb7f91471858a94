-- ===== src/Balance/Interleaved.antt =====
-- Deposits and transfers of pattern 02 that run at the same time, one host access after the other.
use slipstream_contracts.Common.{
  ◌≡◌, sym, ◌∙◌, ap, ◌≢◌, Bool, Option, some, List, map, Apart, All, none, subst, flattened,
  unwrap_or,
}
use slipstream_contracts.Common.Int.{ℤ, pos}
use slipstream_contracts.Host.{Slot, Ledger}
use slipstream_contracts.Host.Footprint.{after_all, replies}
use slipstream_contracts.Host.Footprint.Interleave.Stages.{Runs, stages-Serial}
use slipstream_contracts.Balance.Naive
use slipstream_contracts.Balance.Naive.{BalanceMap}
use slipstream_contracts.Balance.PerUser
use slipstream_contracts.Balance.PerUser.{balance_slot}
use slipstream_contracts.Balance.Refinement.{
  Operation, naive_call, per_user_call, SameBalances, per_user-refines-naive,
}
use slipstream_contracts.Balance.Stages.{accounts, operations-IsStage}

module _ {Address : Type 0} (M : BalanceMap Address)
    (N : Ledger (Slot Naive.DataKey) (Naive.Value M)) (authorized : Address → Bool) where
  -- Stages of deposits and transfers run one after the other on the contract with a key for each
  -- account, where no two operations of a stage share an account. Those of a stage run at the same
  -- time. From the same balances, the contract with the one map lets all operations through one
  -- after the other. Whatever the order of the host accesses, once all have answered, the answers
  -- and the balances are those that it gives them.
  pub interleaved-refines-naive :
      (P : Ledger (Slot (PerUser.DataKey Address)) PerUser.Value)
      (stages : List (List (Operation Address))) (s : N.State) (t : P.State)
      (answers : List (List (Option ℤ))) (u : P.State)
      → SameBalances M N P authorized s t
      → All (Apart accounts) stages
      → let calls = map (naive_call M) (flattened stages) in
        All (λ r. r ≢ none) (replies N authorized calls s)
        → Runs P authorized (map (map per_user_call) stages) t answers u
        → (replies N authorized calls s ≡ map some (flattened answers))
          × SameBalances M N P authorized (after_all N authorized calls s) u
  interleaved-refines-naive P stages s t answers u same h w runs =
      let alike = per_user-refines-naive M N P authorized (flattened stages) s t same in
      let serial =
        stages-Serial P authorized per_user_call (Apart accounts) stages t answers u
          (λ ops t. operations-IsStage authorized P ops t) h (subst (All (λ r. r ≢ none)) alike.0 w)
          runs in
      (
        alike.0 ∙ serial.0,
        λ who. alike.1 who ∙ ap (λ o. unwrap_or o (pos 0)) (sym (serial.1 (balance_slot who))),
      )
