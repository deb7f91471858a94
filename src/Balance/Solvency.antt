-- ===== src/Balance/Solvency.antt =====
-- Balances below zero in runs of patterns/02-per-user-balance/optimized.
use slipstream_contracts.Common.{
  ◌≡◌, refl, sym, ◌∙◌, Option, none, some, inl, inr, Bool, List, [], ◌∷◌, map, All, subst,
}
use slipstream_contracts.Common.Int.{ℤ, pos, ◌+ℤ◌, ◌≤ℤ◌, int_laws}
use slipstream_contracts.Host.{Slot, Ledger, Call, done, run, ◌>>=◌, run-answer, run-answer_panic}
use slipstream_contracts.Host.Footprint.{after, after_all, returned, panicked}
use slipstream_contracts.Balance.PerUser
use slipstream_contracts.Balance.PerUser.{DataKey, Value}
use slipstream_contracts.Balance.Transfer.{funds, deposit_cases}
use slipstream_contracts.Balance.Transfer.Effects.{IsSolvent, write-IsSolvent, transfer-IsSolvent}
use slipstream_contracts.Balance.Refinement.{Operation, deposit, transfer, per_user_call}

module _ {Address : Type 0} (L : Ledger (Slot (DataKey Address)) Value)
    (authorized : Address → Bool) where
  open L use {State, write}

  abbrev pub amount_of : Operation Address → ℤ
  amount_of (deposit to amount) = amount
  amount_of (transfer from to amount) = amount

  -- What a call answers is no matter to the ledger.
  after-answered :
      {A B : Type 0} (m : Call (Slot (DataKey Address)) Value Address A) (f : A → B) (s : State)
      → after L authorized (m >>= λ v. done (f v)) s ≡ after L authorized m s
  after-answered {A = A} m f s = of (run L authorized m s) refl
    where
      of :
          (o : Option (A × State))
          → run L authorized m s ≡ o
          → after L authorized (m >>= λ v. done (f v)) s ≡ after L authorized m s
      of none e =
          (panicked L authorized (m >>= λ v. done (f v)) s
            (run-answer_panic L authorized m f s e)).1
          ∙ sym (panicked L authorized m s e).1
      of (some (a, s')) e =
          (returned L authorized (m >>= λ v. done (f v)) s (run-answer L authorized m f s e)).1
          ∙ sym (returned L authorized m s e).1

  deposit-IsSolvent :
      (to : Address) (amount : ℤ) (s : State)
      → pos 0 ≤ℤ amount
      → IsSolvent L authorized s
      → IsSolvent L authorized (after L authorized (PerUser.deposit to amount) s)
  deposit-IsSolvent to amount s h ok = elim (deposit_cases L authorized to amount s) [
    | inl e ↦
        subst (IsSolvent L authorized)
          (sym (panicked L authorized (PerUser.deposit to amount) s e).1) ok
    | inr e ↦
        subst (IsSolvent L authorized)
          (sym (returned L authorized (PerUser.deposit to amount) s e).1)
          (write-IsSolvent L authorized to (funds L authorized to s +ℤ amount) s
            (omega (int_laws, h, ok to)) ok)
  ]

  call-IsSolvent :
      (op : Operation Address) (s : State)
      → pos 0 ≤ℤ amount_of op
      → IsSolvent L authorized s
      → IsSolvent L authorized (after L authorized (per_user_call op) s)
  unfolding per_user_call
  call-IsSolvent (deposit to amount) s h ok =
      rw (after-answered (PerUser.deposit to amount) some s) (deposit-IsSolvent to amount s h ok)
  call-IsSolvent (transfer from to amount) s h ok =
      rw (after-answered (PerUser.transfer from to amount) (λ _. none) s)
        (transfer-IsSolvent L authorized from to amount s h ok)

  -- Where no balance is below zero, none is after any deposits and transfers of non-negative amounts,
  -- signed or not, whether they go through or panic.
  pub operations-IsSolvent :
      (ops : List (Operation Address)) (s : State)
      → All (λ op. pos 0 ≤ℤ amount_of op) ops
      → IsSolvent L authorized s
      → IsSolvent L authorized (after_all L authorized (map per_user_call ops) s)
  operations-IsSolvent [] s h ok = ok
  operations-IsSolvent (op ∷ ops) s h ok =
      operations-IsSolvent ops (after L authorized (per_user_call op) s) h.1
        (call-IsSolvent op s h.0 ok)
