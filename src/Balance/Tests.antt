-- ===== src/Balance/Tests.antt =====
-- Runs of pattern 02, with numbers for addresses.
mod Interleaved
use mathlib.Core.Path.{◌≡◌, refl}
use mathlib.Core.List.{Permᴰ}
use slipstream_contracts.Common.{unwrap_or}
use slipstream_contracts.Host.{done}
use slipstream_contracts.Host.Footprint.Interleave.{Reach}
use slipstream_contracts.Host.Footprint.Interleave
use slipstream_contracts.Host.Footprint.Interleave.{start, later, here, read_key, write_key, passed}
use slipstream_contracts.Host.Footprint.Interleave.Stages.{stage, no_stages}
use slipstream_contracts.Host.Footprint.Interleave.Updates.{updates-Reach}
use slipstream_contracts.Balance.Interleaved.{interleaved-refines-naive}
use slipstream_contracts.Common.{
  ne-none, ℕ, ◌≢◌, Bool, true, Option, none, some, List, [], ◌∷◌, map, arith, ℕ_discrete, inl, inr,
  ◌==◌, if◌then◌else◌, flattened,
}
use slipstream_contracts.Common.Int.{ℤ, pos, negsuc, ◌+ℤ◌, ◌-ℤ◌, ◌≤ℤ◌}
use slipstream_contracts.Host.{Slot, persistent, temporary, Ledger}
use slipstream_contracts.Host.Words.{fits_i128}
use slipstream_contracts.Host.Memory.{memory, empty}
use slipstream_contracts.Host.Footprint.Stage.{OrderFree}
use slipstream_contracts.Balance.Stages.{operations-OrderFree}
use slipstream_contracts.Host.Footprint.{IsSchedule, result, after, after_all, replies}
use slipstream_contracts.Balance.Naive
use slipstream_contracts.Balance.Naive.{BalanceMap}
use slipstream_contracts.Balance.PerUser
use slipstream_contracts.Balance.PerUser.{balance_slot}
use slipstream_contracts.Balance.Solvency.{operations-IsSolvent}
use slipstream_contracts.Balance.Transfer.{funds}
use slipstream_contracts.Balance.Transfer.Supply.{supply, transfer-supply}
use slipstream_contracts.Balance.Transfer.Effects.{IsSolvent, transfer_moves, transfer_negative}
use slipstream_contracts.Balance.Refinement.{
  Operation, deposit, transfer, naive_call, per_user_call, SameBalances, per_user-refines-naive,
}

naive_eq : Discrete (Slot Naive.DataKey)
naive_eq = hlevel

per_user_eq : Discrete (Slot (PerUser.DataKey ℕ))
per_user_eq = hlevel ℕ_discrete

map_get-set_self : (a : ℕ) (v : ℤ) (m : ℕ → Option ℤ) → (if a == a then some v else m a) ≡ some v
map_get-set_self a v m = ground arith

map_get-set_other :
    (a b : ℕ) (v : ℤ) (m : ℕ → Option ℤ) → a ≢ b → (if a == b then some v else m a) ≡ m a
map_get-set_other a b v m h = ground arith

-- A map as a function.
abbrev balance_map : BalanceMap ℕ
balance_map = record {
  Map = ℕ → Option ℤ;
  new = λ _. none;
  get = λ a m. m a;
  set = λ a v m b. if b == a then some v else m b;
  get-new = λ a. refl;
  get-set_self = map_get-set_self;
  get-set_other = map_get-set_other;
}

abbrev naive_ledger : Ledger (Slot Naive.DataKey) (Naive.Value balance_map)
naive_ledger = memory (Naive.Value balance_map) naive_eq

abbrev ledger : Ledger (Slot (PerUser.DataKey ℕ)) PerUser.Value
ledger = memory PerUser.Value per_user_eq

-- Account 1 alone has signed.
abbrev signed : ℕ → Bool
signed a = a == 1

-- Account 1 holds 50, account 2 holds 7.
abbrev book : (k : Slot (PerUser.DataKey ℕ)) → Option ℤ
book (persistent (PerUser.balance_key a)) =
    if a == 1 then some (pos 50) else if a == 2 then some (pos 7) else none
book _ = none

book-IsSolvent : IsSolvent ledger signed book
book-IsSolvent a = ground arith

per_user-refines-naive_example :
    let ops : List (Operation ℕ) =
      deposit 1 (pos 9) ∷ transfer 1 2 (pos 4) ∷ transfer 1 2 (pos 6) ∷ transfer 2 1 (pos 1) ∷ [] in
    let s = empty (Naive.Value balance_map) naive_eq in
    let t = empty PerUser.Value per_user_eq in
    (replies naive_ledger signed (map (naive_call balance_map) ops) s
      ≡ replies ledger signed (map per_user_call ops) t)
    × SameBalances balance_map naive_ledger ledger signed
        (after_all naive_ledger signed (map (naive_call balance_map) ops) s)
        (after_all ledger signed (map per_user_call ops) t)
per_user-refines-naive_example =
    per_user-refines-naive balance_map naive_ledger ledger signed
      (deposit 1 (pos 9) ∷ transfer 1 2 (pos 4) ∷ transfer 1 2 (pos 6) ∷ transfer 2 1 (pos 1) ∷ [])
      (empty (Naive.Value balance_map) naive_eq) (empty PerUser.Value per_user_eq) (λ who. refl)

transfer-supply_example :
    supply ledger signed (1 ∷ 2 ∷ []) (after ledger signed (PerUser.transfer 1 2 (pos 8)) book)
    ≡ supply ledger signed (1 ∷ 2 ∷ []) book
transfer-supply_example =
    transfer-supply ledger signed (1 ∷ 2 ∷ []) 1 2 (pos 8) book (omega arith) (inl refl)
      (inr (inl refl))

transfer_returns : result ledger signed (PerUser.transfer 1 2 (pos 8)) book ≡ some tt
unfolding PerUser.transfer fits_i128 ◌+ℤ◌ ◌-ℤ◌ per_user_eq ℕ_discrete
transfer_returns = refl

transfer_moves_example :
    let s' = after ledger signed (PerUser.transfer 1 2 (pos 8)) book in
    (signed 1 ≡ true)
    × (pos 8 ≤ℤ funds ledger signed 1 book)
    × (funds ledger signed 1 s' ≡ funds ledger signed 1 book -ℤ pos 8)
    × (funds ledger signed 2 s' ≡ funds ledger signed 2 book +ℤ pos 8)
    × ((a : ℕ) → a ≢ 1 → a ≢ 2 → funds ledger signed a s' ≡ funds ledger signed a book)
transfer_moves_example =
    transfer_moves ledger signed 1 2 (pos 8) book (omega arith) transfer_returns

transfer_negative_example :
    let s' = after ledger signed (PerUser.transfer 1 2 (negsuc 9)) book in
    (result ledger signed (PerUser.transfer 1 2 (negsuc 9)) book ≡ some tt)
    × (funds ledger signed 1 s' ≡ funds ledger signed 1 book +ℤ pos 10)
    × (funds ledger signed 2 s' ≡ funds ledger signed 2 book -ℤ pos 10)
unfolding fits_i128 ◌+ℤ◌ ◌-ℤ◌
transfer_negative_example =
    transfer_negative ledger signed 1 2 9 book refl (omega arith) (omega arith) refl refl

-- No two of these share an account.
abbrev orders : List (Operation ℕ)
orders = transfer 1 2 (pos 8) ∷ deposit 3 (pos 4) ∷ deposit 4 (pos 5) ∷ []

-- The same, in another order.
abbrev reordered : List (Operation ℕ)
reordered = deposit 3 (pos 4) ∷ transfer 1 2 (pos 8) ∷ deposit 4 (pos 5) ∷ []

operations-OrderFree_example : OrderFree ledger signed per_user_call orders reordered book
operations-OrderFree_example =
    operations-OrderFree signed ledger orders reordered book (omega arith) (Permᴰ.swap refl refl)

abbrev in_turn : List (List (Operation ℕ))
in_turn = (deposit 1 (pos 3) ∷ []) ∷ (deposit 2 (pos 4) ∷ []) ∷ []

-- Deposits to two accounts of the map, in two stages.
naive-IsSchedule :
    IsSchedule naive_ledger signed
      (map (map (naive_call balance_map)) in_turn)
      (empty (Naive.Value balance_map) naive_eq)
unfolding Naive.deposit naive_call fits_i128 ◌+ℤ◌ naive_eq
naive-IsSchedule = ((tt, tt), (ne-none _ refl, tt), ((tt, tt), (ne-none _ refl, tt), tt))

-- Account 2 has not signed, account 1 pays more than it has, and the rest goes through.
abbrev mixed_orders : List (Operation ℕ)
mixed_orders =
    transfer 1 2 (pos 8) ∷ deposit 3 (pos 4) ∷ transfer 2 1 (pos 1) ∷ transfer 1 1 (pos 500) ∷ []

operations-IsSolvent_example :
    IsSolvent ledger signed (after_all ledger signed (map per_user_call mixed_orders) book)
operations-IsSolvent_example =
    operations-IsSolvent ledger signed mixed_orders book
      (omega arith, (omega arith, (omega arith, (omega arith, tt)))) book-IsSolvent
