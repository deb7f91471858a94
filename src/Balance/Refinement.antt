-- ===== src/Balance/Refinement.antt =====
-- The per-account contract of patterns/02-per-user-balance against the naive one.
use mathlib.Core.Path.{ap₂}
use slipstream_contracts.Common.{
  ◌≡◌, refl, ap, inl, inr, Bool, Option, none, some, List, [], ◌∷◌, map, unwrap_or, Bool-cases,
}
use slipstream_contracts.Common.Int.{ℤ, pos, ◌+ℤ◌, ◌-ℤ◌, leb_ℤ}
use slipstream_contracts.Host.{Slot, persistent, Call, Ledger, run, run->>=, done, ◌>>=◌}
use slipstream_contracts.Host.Words.{fits_i128}
use slipstream_contracts.Host.Footprint.{result, after, after_all, replies}
use slipstream_contracts.Balance.Naive
use slipstream_contracts.Balance.Naive.{BalanceMap}
use slipstream_contracts.Balance.PerUser
use slipstream_contracts.Balance.PerUser.{balance_slot}
use slipstream_contracts.Balance.Transfer.{funds, funds-write_self, funds-write_other}

-- The calls that change balances.
pub data Operation (Address : Type 0) : Type 0 where
  deposit : Address → ℤ → Operation Address
  transfer : Address → Address → ℤ → Operation Address

module _ {Address : Type 0} where
  -- The call as a client makes it: a deposit answers with the new balance, a transfer with nothing.
  unfoldable pub naive_call :
      (M : BalanceMap Address)
      → Operation Address
      → Call (Slot Naive.DataKey) (Naive.Value M) Address (Option ℤ)
  naive_call M (deposit to amount) = Naive.deposit M to amount >>= λ v. done (some v)
  naive_call M (transfer from to amount) = Naive.transfer M from to amount >>= λ _. done none

  unfoldable pub per_user_call :
      Operation Address → Call (Slot (PerUser.DataKey Address)) PerUser.Value Address (Option ℤ)
  per_user_call (deposit to amount) = PerUser.deposit to amount >>= λ v. done (some v)
  per_user_call (transfer from to amount) = PerUser.transfer from to amount >>= λ _. done none

module _ {Address : Type 0} (M : BalanceMap Address)
    (N : Ledger (Slot Naive.DataKey) (Naive.Value M))
    (P : Ledger (Slot (PerUser.DataKey Address)) PerUser.Value) (authorized : Address → Bool) where
  -- The stored map, or an empty one.
  abbrev pub balances_of : N.State → M.Map
  balances_of s = unwrap_or (N.read (persistent Naive.balances) s) M.new

  abbrev pub naive_funds : Address → N.State → ℤ
  naive_funds who s = unwrap_or (M.get who (balances_of s)) (pos 0)

  -- Every account has the same balance in both contracts.
  abbrev pub SameBalances : N.State → P.State → Type 0
  SameBalances s t = (who : Address) → naive_funds who s ≡ funds P authorized who t

  abbrev map_funds : Address → M.Map → ℤ
  map_funds who m = unwrap_or (M.get who m) (pos 0)

  SameMap : M.Map → P.State → Type 0
  SameMap m t = (who : Address) → map_funds who m ≡ funds P authorized who t

  set-SameMap :
      (a : Address) (v : ℤ) (m : M.Map) (t : P.State)
      → SameMap m t
      → SameMap (M.set a v m) (P.write (balance_slot a) v t)
  unfolding SameMap
  set-SameMap a v m t same who = elim (P.key_eq (balance_slot who) (balance_slot a)) [
    | yes e ↦
        let e' : who ≡ a = cc in
        rw (e', funds-write_self P authorized a v t, M.get-set_self a v m) refl
    | no n ↦
        rw
          (
            funds-write_other P authorized who a v t (λ e. n (ap balance_slot e)),
            M.get-set_other who a v m (λ e. n (ap balance_slot e)),
          )
          (same who)
  ]

  store-SameBalances :
      (m : M.Map) (s : N.State) (t : P.State)
      → SameMap m t
      → SameBalances (N.write (persistent Naive.balances) m s) t
  unfolding SameMap
  store-SameBalances m s t same who =
      rw (N.read-write_self (persistent Naive.balances) m s) (same who)

  -- Both runs panicked, or both returned the same value and left the same balances.
  Alike : {A : Type 0} → Option (A × N.State) → Option (A × P.State) → Type 0
  Alike none none = Unit
  Alike none (some _) = ⊥
  Alike (some _) none = ⊥
  Alike (some (a, s)) (some (b, t)) = (a ≡ b) × SameBalances s t

  deposit-Alike :
      (to : Address) (amount : ℤ) (s : N.State) (t : P.State)
      → SameBalances s t
      → Alike
          (run N authorized (Naive.deposit M to amount) s)
          (run P authorized (PerUser.deposit to amount) t)
  unfolding Naive.deposit PerUser.deposit Alike SameMap
  deposit-Alike to amount s t same =
      rw (← same to) (elim (Bool-cases (fits_i128 (naive_funds to s +ℤ amount))) [
        | inr f ↦ rw f tt
        | inl f ↦ rw f (refl, store-SameBalances _ s _ (set-SameMap to _ (balances_of s) t same))
      ])

  transfer-Alike :
      (from to : Address) (amount : ℤ) (s : N.State) (t : P.State)
      → SameBalances s t
      → Alike
          (run N authorized (Naive.transfer M from to amount) s)
          (run P authorized (PerUser.transfer from to amount) t)
  unfolding Naive.transfer PerUser.transfer Alike SameMap
  transfer-Alike from to amount s t same =
      let m = balances_of s in
      let m' = M.set from (naive_funds from s -ℤ amount) m in
      let t' = P.write (balance_slot from) (naive_funds from s -ℤ amount) t in
      let same' = set-SameMap from (naive_funds from s -ℤ amount) m t same in
      elim (Bool-cases (authorized from)) [
        | inr e ↦ rw e tt
        | inl e ↦ rw e (
            rw (← same from) (elim (Bool-cases (leb_ℤ amount (naive_funds from s))) [
              | inr c ↦ rw c tt
              | inl c ↦ rw c (elim (Bool-cases (fits_i128 (naive_funds from s -ℤ amount))) [
                | inr f ↦ rw f tt
                | inl f ↦ rw f (
                    rw (← same' to) (elim (Bool-cases (fits_i128 (map_funds to m' +ℤ amount))) [
                      | inr g ↦ rw g tt
                      | inl g ↦ rw g (refl, store-SameBalances _ s _ (set-SameMap to _ m' t' same'))
                    ]))
              ])
            ]))
      ]

  Alike-map :
      {A B : Type 0} (f : A → B) (x : Option (A × N.State)) (y : Option (A × P.State))
      → Alike x y
      → Alike {A = B}
          (elim x [ none ↦ none | some (a, s) ↦ some (f a, s) ])
          (elim y [ none ↦ none | some (a, s) ↦ some (f a, s) ])
  unfolding Alike
  Alike-map f none none h = tt
  Alike-map f none (some y) h = h
  Alike-map f (some x) none h = h
  Alike-map f (some x) (some y) h = (ap f h.0, h.1)

  call-Alike :
      (op : Operation Address) (s : N.State) (t : P.State)
      → SameBalances s t
      → Alike (run N authorized (naive_call M op) s) (run P authorized (per_user_call op) t)
  unfolding naive_call per_user_call
  call-Alike (deposit to amount) s t same =
      rw
        (
          run->>= N authorized (Naive.deposit M to amount) (λ v. done (some v)) s,
          run->>= P authorized (PerUser.deposit to amount) (λ v. done (some v)) t,
        )
        (Alike-map some _ _ (deposit-Alike to amount s t same))
  call-Alike (transfer from to amount) s t same =
      rw
        (
          run->>= N authorized (Naive.transfer M from to amount) (λ _. done none) s,
          run->>= P authorized (PerUser.transfer from to amount) (λ _. done none) t,
        )
        (Alike-map (λ _. none) _ _ (transfer-Alike from to amount s t same))

  Alike-ends :
      {A : Type 0} (p : Call (Slot Naive.DataKey) (Naive.Value M) Address A)
      (q : Call (Slot (PerUser.DataKey Address)) PerUser.Value Address A) (s : N.State)
      (t : P.State)
      → SameBalances s t
      → Alike (run N authorized p s) (run P authorized q t)
      → (result N authorized p s ≡ result P authorized q t)
        × SameBalances (after N authorized p s) (after P authorized q t)
  unfolding Alike
  Alike-ends {A} p q s t same = go (run N authorized p s) (run P authorized q t)
    where
      go :
          (x : Option (A × N.State)) (y : Option (A × P.State))
          → Alike x y
          → (◌≡◌ {A = Option A}
              (elim x [ none ↦ none | some (a, _) ↦ some a ])
              (elim y [ none ↦ none | some (a, _) ↦ some a ]))
            × SameBalances
                (elim x [ none ↦ s | some (_, s') ↦ s' ])
                (elim y [ none ↦ t | some (_, t') ↦ t' ])
      go none none h = (refl, same)
      go none (some y) h = absurd h
      go (some x) none h = absurd h
      go (some x) (some y) h = (ap some h.0, h.1)

  -- From equal balances, any sequence of deposits and transfers gets the same answers from the
  -- naive and the per-account contract, panics included, and leaves equal balances.
  pub per_user-refines-naive :
      (ops : List (Operation Address)) (s : N.State) (t : P.State)
      → SameBalances s t
      → (replies N authorized (map (naive_call M) ops) s
          ≡ replies P authorized (map per_user_call ops) t)
        × SameBalances
            (after_all N authorized (map (naive_call M) ops) s)
            (after_all P authorized (map per_user_call ops) t)
  per_user-refines-naive [] s t same = (refl, same)
  per_user-refines-naive (op ∷ ops) s t same =
      let e = Alike-ends (naive_call M op) (per_user_call op) s t same (call-Alike op s t same) in
      let rest = per_user-refines-naive ops _ _ e.1 in (ap₂ ◌∷◌ e.0 rest.0, rest.1)
