-- ===== src/Balance/Transfer/Effects.antt =====
-- Who gains and who loses by a transfer of patterns/02-per-user-balance/optimized.
use slipstream_contracts.Common.{
  ℕ, suc, ◌≡◌, refl, sym, ap, ◌∙◌, ◌≢◌, ◌⊎◌, inl, inr, Bool, true, Option, none, some,
}
use slipstream_contracts.Common.Int.{ℤ, pos, negsuc, ◌+ℤ◌, ◌-ℤ◌, ◌≤ℤ◌, int_laws, eq_of_parts}
use slipstream_contracts.Host.{Slot, Ledger}
use slipstream_contracts.Host.Words.{fits_i128}
use slipstream_contracts.Host.Footprint.{result, after, returned, panicked}
use slipstream_contracts.Balance.PerUser
use slipstream_contracts.Balance.PerUser.{DataKey, Value, balance_slot}
use slipstream_contracts.Balance.Transfer.{
  funds, funds-write_self, funds-write_other, debited, transferred, transfer_rule, transfer_cases,
  run-transfer,
}

module _ {Address : Type 0} (L : Ledger (Slot (DataKey Address)) Value)
    (authorized : Address → Bool) where
  open L use {State, write, key_eq}

  same_or_not : (a b : Address) → (a ≡ b) ⊎ (a ≢ b)
  same_or_not a b = elim (key_eq (balance_slot a) (balance_slot b)) [
    | yes e ↦ inl (cc)
    | no n ↦ inr (λ e. n (ap balance_slot e))
  ]

  -- The balances after a transfer that went through.
  module _ (from to : Address) (amount : ℤ) (s : State) where
    abbrev ledger : State
    ledger = transferred L authorized from to amount s

    to_funds : from ≢ to → funds L authorized to ledger ≡ funds L authorized to s +ℤ amount
    to_funds h =
        rw
          (
            funds-write_self L authorized to
                (funds L authorized to (debited L authorized from amount s) +ℤ amount)
                (debited L authorized from amount s),
            funds-write_other L authorized to from (funds L authorized from s -ℤ amount) s
                (λ e. h (sym e)),
          )
          refl

    from_funds : from ≢ to → funds L authorized from ledger ≡ funds L authorized from s -ℤ amount
    from_funds h =
        rw
          (
            funds-write_other L authorized from to
                (funds L authorized to (debited L authorized from amount s) +ℤ amount)
                (debited L authorized from amount s) h,
            funds-write_self L authorized from (funds L authorized from s -ℤ amount) s,
          )
          refl

    other_funds :
        (a : Address) → a ≢ from → a ≢ to → funds L authorized a ledger ≡ funds L authorized a s
    other_funds a hf ht =
        rw
          (
            funds-write_other L authorized a to
                (funds L authorized to (debited L authorized from amount s) +ℤ amount)
                (debited L authorized from amount s) ht,
            funds-write_other L authorized a from (funds L authorized from s -ℤ amount) s hf,
          )
          refl

  -- A transfer that returns was authorised by `from` and covered; it moves exactly the amount
  -- between two different accounts, and touches no third account.
  pub transfer_moves :
      (from to : Address) (amount : ℤ) (s : State)
      → from ≢ to
      → result L authorized (PerUser.transfer from to amount) s ≡ some tt
      → let s' = after L authorized (PerUser.transfer from to amount) s in
        (authorized from ≡ true)
        × (amount ≤ℤ funds L authorized from s)
        × (funds L authorized from s' ≡ funds L authorized from s -ℤ amount)
        × (funds L authorized to s' ≡ funds L authorized to s +ℤ amount)
        × ((a : Address) → a ≢ from → a ≢ to → funds L authorized a s' ≡ funds L authorized a s)
  transfer_moves from to amount s h e = elim (transfer_cases L authorized from to amount s) [
    | inl p ↦
        absurd (none_some (sym (panicked L authorized (PerUser.transfer from to amount) s p).0 ∙ e))
    | inr c ↦
        let r = returned L authorized (PerUser.transfer from to amount) s c.2 in
        (
          c.0,
          c.1,
          rw (r.1) (from_funds from to amount s h),
          rw (r.1) (to_funds from to amount s h),
          rw (r.1) (other_funds from to amount s),
        )
  ]
    where
      none_some : ◌≡◌ {A = Option (Unit {0})} none (some tt) → ⊥
      none_some q = cc

  abbrev pub IsSolvent : State → Type 0
  IsSolvent s = (a : Address) → pos 0 ≤ℤ funds L authorized a s

  pub write-IsSolvent :
      (a : Address) (v : ℤ) (s : State)
      → pos 0 ≤ℤ v
      → IsSolvent s
      → IsSolvent (write (balance_slot a) v s)
  write-IsSolvent a v s h ok b = elim (same_or_not b a) [
    | inl e ↦ rw (e, funds-write_self L authorized a v s) h
    | inr n ↦ rw (funds-write_other L authorized b a v s n) (ok b)
  ]

  -- Where no balance is below zero, none is after a transfer of a non-negative amount.
  pub transfer-IsSolvent :
      (from to : Address) (amount : ℤ) (s : State)
      → pos 0 ≤ℤ amount
      → IsSolvent s
      → IsSolvent (after L authorized (PerUser.transfer from to amount) s)
  transfer-IsSolvent from to amount s h ok =
      transfer_rule L authorized IsSolvent from to amount s ok λ _ covered.
        let ok' =
          write-IsSolvent from (funds L authorized from s -ℤ amount) s (omega int_laws) ok in
        write-IsSolvent to _ (debited L authorized from amount s) (omega (int_laws, ok' to)) ok'

  -- `transfer` accepts a negative amount: between different accounts and where both new balances
  -- are `i128`, whoever has a balance of zero or more takes funds from an account that has signed
  -- nothing, whatever that account holds.
  pub transfer_negative :
      (from to : Address) (n : ℕ) (s : State)
      → authorized from ≡ true
      → from ≢ to
      → pos 0 ≤ℤ funds L authorized from s
      → fits_i128 (funds L authorized from s -ℤ negsuc n) ≡ true
      → fits_i128 (funds L authorized to s +ℤ negsuc n) ≡ true
      → let s' = after L authorized (PerUser.transfer from to (negsuc n)) s in
        (result L authorized (PerUser.transfer from to (negsuc n)) s ≡ some tt)
        × (funds L authorized from s' ≡ funds L authorized from s +ℤ pos (suc n))
        × (funds L authorized to s' ≡ funds L authorized to s -ℤ pos (suc n))
  transfer_negative from to n s signed h nonneg f g =
      let g' : fits_i128
            (funds L authorized to (debited L authorized from (negsuc n) s) +ℤ negsuc n)
          ≡ true =
        rw
          (funds-write_other L authorized to from (funds L authorized from s -ℤ negsuc n) s
            (λ e. h (sym e)))
          g in
      let r =
        returned L authorized (PerUser.transfer from to (negsuc n)) s
          (run-transfer L authorized from to (negsuc n) s signed (omega int_laws) f g') in
      (
        r.0,
        rw (r.1) (from_funds from to (negsuc n) s h ∙ eq_of_parts _ _ (omega int_laws)),
        rw (r.1) (to_funds from to (negsuc n) s h ∙ eq_of_parts _ _ (omega int_laws)),
      )
