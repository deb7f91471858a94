-- ===== src/Balance/Transfer.antt =====
-- What `transfer` and `deposit` of the per-account contract do to the ledger.
pub mod Supply
pub mod Effects
use slipstream_contracts.Common.{
  ◌≡◌, refl, sym, subst, ◌≢◌, ◌⊎◌, inl, inr, Bool, true, false, Option, none, some, unwrap_or,
  arith, leb→le, le→leb, Bool-cases,
}
use slipstream_contracts.Common.Int.{ℤ, pos, negsuc, ◌+ℤ◌, ◌-ℤ◌, ◌≤ℤ◌, leb_ℤ, int_laws}
use slipstream_contracts.Host.{Slot, Ledger, run}
use slipstream_contracts.Host.Words.{fits_i128}
use slipstream_contracts.Host.Footprint.{result, after, returned, panicked}
use slipstream_contracts.Balance.PerUser
use slipstream_contracts.Balance.PerUser.{DataKey, Value, balance_slot}

pub balance_slot-ne : {Address : Type 0} {a b : Address} → a ≢ b → balance_slot a ≢ balance_slot b
balance_slot-ne h e = h (cc)

module _ {Address : Type 0} (L : Ledger (Slot (DataKey Address)) Value)
    (authorized : Address → Bool) where
  open L use {State, read, write, key_eq, read-write_self, read-write_other}

  abbrev pub funds : Address → State → ℤ
  funds who s = unwrap_or (read (balance_slot who) s) (pos 0)

  pub funds-write_self :
      (a : Address) (v : ℤ) (s : State) → funds a (write (balance_slot a) v s) ≡ v
  funds-write_self a v s = rw (read-write_self (balance_slot a) v s) refl

  pub funds-write_other :
      (a b : Address) (v : ℤ) (s : State) → a ≢ b → funds a (write (balance_slot b) v s) ≡ funds a s
  funds-write_other a b v s h =
      rw (read-write_other (balance_slot a) (balance_slot b) v s (balance_slot-ne h)) refl

  -- The ledger after the debit, and after the whole transfer.
  abbrev pub debited : Address → ℤ → State → State
  debited from amount s = write (balance_slot from) (funds from s -ℤ amount) s

  abbrev pub transferred : Address → Address → ℤ → State → State
  transferred from to amount s =
      let s' = debited from amount s in write (balance_slot to) (funds to s' +ℤ amount) s'

  -- A transfer panics, or it was authorised and covered, and moved the amount.
  pub transfer_cases :
      (from to : Address) (amount : ℤ) (s : State)
      → (run L authorized (PerUser.transfer from to amount) s ≡ none)
        ⊎ ((authorized from ≡ true)
            × (amount ≤ℤ funds from s)
            × (run L authorized (PerUser.transfer from to amount) s
                ≡ some (tt, transferred from to amount s)))
  unfolding PerUser.transfer
  transfer_cases from to amount s = elim (Bool-cases (authorized from)) [
    | inr e ↦ inl (rw e refl)
    | inl e ↦ elim (Bool-cases (leb_ℤ amount (funds from s))) [
      | inr c ↦ inl (rw e (rw c refl))
      | inl c ↦ elim (Bool-cases (fits_i128 (funds from s -ℤ amount))) [
        | inr f ↦ inl (rw e (rw c (rw f refl)))
        | inl f ↦ elim (Bool-cases (fits_i128 (funds to (debited from amount s) +ℤ amount))) [
          | inr g ↦ inl (rw e (rw c (rw f (rw g refl))))
          | inl g ↦ inr (e, leb→le _ _ c, rw e (rw c (rw f (rw g refl))))
        ]
      ]
    ]
  ]

  -- A deposit panics, or it credits the account and returns the new balance.
  pub deposit_cases :
      (to : Address) (amount : ℤ) (s : State)
      → (run L authorized (PerUser.deposit to amount) s ≡ none)
        ⊎ (run L authorized (PerUser.deposit to amount) s
            ≡ some (funds to s +ℤ amount, write (balance_slot to) (funds to s +ℤ amount) s))
  unfolding PerUser.deposit
  deposit_cases to amount s = elim (Bool-cases (fits_i128 (funds to s +ℤ amount))) [
    | inl f ↦ inr (rw f refl)
    | inr f ↦ inl (rw f refl)
  ]

  -- To show something of the ledger after a transfer: it holds before, and a transfer that was
  -- authorised and covered brings it about.
  pub transfer_rule :
      (P : State → Type 0) (from to : Address) (amount : ℤ) (s : State)
      → P s
      → (authorized from ≡ true → amount ≤ℤ funds from s → P (transferred from to amount s))
      → P (after L authorized (PerUser.transfer from to amount) s)
  transfer_rule P from to amount s base moved = elim (transfer_cases from to amount s) [
    | inl e ↦ subst P (sym (panicked L authorized (PerUser.transfer from to amount) s e).1) base
    | inr c ↦
        subst P (sym (returned L authorized (PerUser.transfer from to amount) s c.2).1)
          (moved c.0 c.1)
  ]

  -- With authority, cover and no overflow a transfer goes through.
  pub run-transfer :
      (from to : Address) (amount : ℤ) (s : State)
      → authorized from ≡ true
      → amount ≤ℤ funds from s
      → fits_i128 (funds from s -ℤ amount) ≡ true
      → fits_i128 (funds to (debited from amount s) +ℤ amount) ≡ true
      → run L authorized (PerUser.transfer from to amount) s
        ≡ some (tt, transferred from to amount s)
  unfolding PerUser.transfer
  run-transfer from to amount s e c f g = rw e (rw (le→leb _ _ c) (rw f (rw g refl)))
