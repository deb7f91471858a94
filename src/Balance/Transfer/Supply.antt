-- ===== src/Balance/Transfer/Supply.antt =====
-- The supply of accounts under transfers of patterns/02-per-user-balance/optimized.
use slipstream_contracts.Common.{◌≡◌, refl, ap, ◌∙◌, Bool, List, In, Distinct}
use slipstream_contracts.Common.Int.{ℤ, ◌+ℤ◌, ◌-ℤ◌, int_laws, parts_of_eq}
use slipstream_contracts.Common.Sums.{sum_of, sum_of-change}
use slipstream_contracts.Host.{Slot, Ledger}
use slipstream_contracts.Host.Footprint.{after}
use slipstream_contracts.Balance.PerUser
use slipstream_contracts.Balance.PerUser.{DataKey, Value, balance_slot}
use slipstream_contracts.Balance.Transfer.{
  funds, funds-write_self, funds-write_other, debited, transfer_rule,
}

module _ {Address : Type 0} (L : Ledger (Slot (DataKey Address)) Value)
    (authorized : Address → Bool) where
  open L use {State, write}

  -- What the listed accounts hold together.
  abbrev pub supply : List Address → State → ℤ
  supply accounts s = sum_of accounts (λ a. funds L authorized a s)

  supply-write :
      (accounts : List Address) (a : Address) (v : ℤ) (s : State)
      → Distinct accounts
      → In a accounts
      → supply accounts (write (balance_slot a) v s) +ℤ funds L authorized a s
        ≡ supply accounts s +ℤ v
  supply-write accounts a v s d i =
      sum_of-change accounts (λ b. funds L authorized b s)
        (λ b. funds L authorized b (write (balance_slot a) v s)) a
        (λ b n. funds-write_other L authorized b a v s n) d i
      ∙ ap (λ w. supply accounts s +ℤ w) (funds-write_self L authorized a v s)

  -- A transfer, whatever its amount and outcome, leaves the supply of any different accounts among
  -- which are both its ends.
  pub transfer-supply :
      (accounts : List Address) (from to : Address) (amount : ℤ) (s : State)
      → Distinct accounts
      → In from accounts
      → In to accounts
      → supply accounts (after L authorized (PerUser.transfer from to amount) s) ≡ supply accounts s
  transfer-supply accounts from to amount s d i j =
      transfer_rule L authorized (λ t. supply accounts t ≡ supply accounts s) from to amount s refl
        (λ _ _.
          let s' = debited L authorized from amount s in
          omega (
            int_laws,
            parts_of_eq (supply-write accounts from (funds L authorized from s -ℤ amount) s d i),
            parts_of_eq (supply-write accounts to (funds L authorized to s' +ℤ amount) s' d j),
          ))
