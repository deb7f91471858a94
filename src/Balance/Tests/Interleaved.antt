-- ===== src/Balance/Tests/Interleaved.antt =====
-- Runs of pattern 02 in which calls run at the same time.
use mathlib.Core.Path.{◌≡◌, refl}
use slipstream_contracts.Common.{unwrap_or}
use slipstream_contracts.Host.{done}
use slipstream_contracts.Host.Footprint.Interleave.{Reach}
use slipstream_contracts.Host.Footprint.Interleave
use slipstream_contracts.Host.Footprint.Interleave.{start, later, here, read_key, write_key, passed}
use slipstream_contracts.Host.Footprint.Interleave.Stages.{stage, no_stages}
use slipstream_contracts.Host.Footprint.Interleave.Updates.{updates-Reach}
use slipstream_contracts.Balance.Interleaved.{interleaved-refines-naive}
use slipstream_contracts.Common.{
  ne-none, ℕ, Option, none, some, List, [], ◌∷◌, map, arith, ℕ_discrete, flattened,
}
use slipstream_contracts.Common.Int.{pos, ◌+ℤ◌, ◌-ℤ◌}
use slipstream_contracts.Host.{Slot}
use slipstream_contracts.Host.Words.{fits_i128}
use slipstream_contracts.Host.Memory.{empty}
use slipstream_contracts.Host.Footprint.{after_all, replies}
use slipstream_contracts.Balance.Naive
use slipstream_contracts.Balance.Naive.{BalanceMap}
use slipstream_contracts.Balance.PerUser
use slipstream_contracts.Balance.PerUser.{balance_slot}
use slipstream_contracts.Balance.Refinement.{
  Operation, deposit, transfer, naive_call, per_user_call, SameBalances,
}
use slipstream_contracts.Balance.Tests.{
  naive_eq, per_user_eq, balance_map, naive_ledger, ledger, signed,
}

-- Deposits for two accounts, which both read before either writes.
abbrev mixed_end : (k : Slot (PerUser.DataKey ℕ)) → Option (PerUser.Value k)
mixed_end =
    ledger.write (balance_slot 2) (pos 4)
      (ledger.write (balance_slot 1) (pos 9) (empty PerUser.Value per_user_eq))

mixed_run :
    Reach ledger signed
      (map per_user_call (deposit 1 (pos 9) ∷ deposit 2 (pos 4) ∷ []))
      (empty PerUser.Value per_user_eq)
      (map done (some (pos 9) ∷ some (pos 4) ∷ []))
      mixed_end
unfolding per_user_call PerUser.deposit fits_i128 ◌+ℤ◌
mixed_run =
    updates-Reach ledger signed (balance_slot 1) (λ o. fits_i128 (unwrap_or o (pos 0) +ℤ pos 9))
      (λ o. unwrap_or o (pos 0) +ℤ pos 9) (λ o. some (unwrap_or o (pos 0) +ℤ pos 9))
      (balance_slot 2) (λ o. fits_i128 (unwrap_or o (pos 0) +ℤ pos 4))
      (λ o. unwrap_or o (pos 0) +ℤ pos 4) (λ o. some (unwrap_or o (pos 0) +ℤ pos 4))
      (empty PerUser.Value per_user_eq) refl refl

-- Then a transfer between them, alone.
abbrev last_end : (k : Slot (PerUser.DataKey ℕ)) → Option (PerUser.Value k)
last_end = ledger.write (balance_slot 2) (pos 8) (ledger.write (balance_slot 1) (pos 5) mixed_end)

last_run :
    Reach ledger signed
      (map per_user_call (transfer 1 2 (pos 4) ∷ []))
      mixed_end
      (map done (none ∷ []))
      last_end
unfolding per_user_call PerUser.transfer fits_i128 ◌+ℤ◌ ◌-ℤ◌ per_user_eq ℕ_discrete
last_run =
    let a = later start (here (Interleave.signed 1 _ _ refl)) in
    let b = later a (here (read_key _ _ _)) in
    let c = later b (here (passed _ _ _ refl)) in
    let d = later c (here (passed _ _ _ refl)) in
    let e = later d (here (write_key _ _ _ _)) in
    let f = later e (here (read_key _ _ _)) in
    let g = later f (here (passed _ _ _ refl)) in later g (here (write_key _ _ _ _))

abbrev in_stages : List (List (Operation ℕ))
in_stages = (deposit 1 (pos 9) ∷ deposit 2 (pos 4) ∷ []) ∷ (transfer 1 2 (pos 4) ∷ []) ∷ []

interleaved-refines-naive_example :
    let calls = map (naive_call balance_map) (flattened in_stages) in
    let s = empty (Naive.Value balance_map) naive_eq in
    (replies naive_ledger signed calls s ≡ map some (some (pos 9) ∷ some (pos 4) ∷ none ∷ []))
    × SameBalances balance_map naive_ledger ledger signed
        (after_all naive_ledger signed calls s)
        last_end
unfolding naive_call Naive.deposit Naive.transfer fits_i128 ◌+ℤ◌ ◌-ℤ◌ naive_eq
interleaved-refines-naive_example =
    interleaved-refines-naive balance_map naive_ledger signed ledger in_stages
      (empty (Naive.Value balance_map) naive_eq) (empty PerUser.Value per_user_eq)
      ((some (pos 9) ∷ some (pos 4) ∷ []) ∷ (none ∷ []) ∷ []) last_end (λ who. refl) (omega arith)
      (ne-none _ refl, (ne-none _ refl, (ne-none _ refl, tt)))
      (stage mixed_run (stage last_run no_stages))
