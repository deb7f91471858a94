-- ===== src/Nonce/Refinement.antt =====
-- One account of patterns/04-temporary-nonce/optimized against patterns/04-temporary-nonce/naive.
use mathlib.Core.Path.{ap₂}
use slipstream_contracts.Common.{
  ℕ, ◌+◌, ◌≡◌, refl, sym, ap, subst, ◌∙◌, ◌≢◌, Bool, true, Option, some, none, false, In, List, [],
  ◌∷◌, map, inl, inr, unwrap_or, Bool-cases, All-of, All-in,
}
use slipstream_contracts.Host.{Slot, persistent, Ledger, run}
use slipstream_contracts.Host.Words.{fits_u64}
use slipstream_contracts.Host.Footprint.{result, after, after_all, replies, returned, panicked}
use slipstream_contracts.Host.Footprint.Commute.{frame}
use slipstream_contracts.Nonce.Naive
use slipstream_contracts.Nonce.PerUser
use slipstream_contracts.Nonce.Footprints.{next-Within}
use slipstream_contracts.Nonce.Freshness.{nonce_slot, nonce_slot-ne}

-- The items that stand where the account has its calls.
abbrev pub own :
    {Address : Type 0} {B : Type 0} → Discrete Address → Address → List Address → List B → List B
own eq a [] xs = []
own eq a (b ∷ picks) [] = []
own eq a (b ∷ picks) (x ∷ xs) =
    let rest = own eq a picks xs in elim (eq b a) [ yes _ ↦ x ∷ rest | no _ ↦ rest ]

module _ {Address : Type 0} (eq : Discrete Address) (authorized : Address → Bool)
    (L : Ledger (Slot (PerUser.DataKey Address)) PerUser.Value)
    (N : Ledger (Slot Naive.DataKey) Naive.Value) (a : Address) (signed : authorized a ≡ true) where
  -- The account has got as many nonces from the one contract as all have from the other.
  abbrev pub SameNonce : L.State → N.State → Type 0
  SameNonce s t =
      unwrap_or (L.read (nonce_slot a) s) 0 ≡ unwrap_or (N.read (persistent Naive.nonce) t) 0

  abbrev value : L.State → ℕ
  value s = unwrap_or (L.read (nonce_slot a) s) 0

  abbrev naive_value : N.State → ℕ
  naive_value t = unwrap_or (N.read (persistent Naive.nonce) t) 0

  run-next_fits :
      (s : L.State)
      → fits_u64 (value s + 1) ≡ true
      → run L authorized (PerUser.next a) s
        ≡ some (value s + 1, L.write (nonce_slot a) (value s + 1) s)
  unfolding PerUser.next
  run-next_fits s f = rw signed (rw f refl)

  run-next_overflow :
      (s : L.State) → fits_u64 (value s + 1) ≡ false → run L authorized (PerUser.next a) s ≡ none
  unfolding PerUser.next
  run-next_overflow s f = rw signed (rw f refl)

  run-naive_next_fits :
      (t : N.State)
      → fits_u64 (naive_value t + 1) ≡ true
      → run N authorized Naive.next t
        ≡ some (naive_value t + 1, N.write (persistent Naive.nonce) (naive_value t + 1) t)
  unfolding Naive.next
  run-naive_next_fits t f = rw f refl

  run-naive_next_overflow :
      (t : N.State) → fits_u64 (naive_value t + 1) ≡ false → run N authorized Naive.next t ≡ none
  unfolding Naive.next
  run-naive_next_overflow t f = rw f refl

  next-SameNonce :
      (s : L.State) (t : N.State)
      → SameNonce s t
      → (result L authorized (PerUser.next a) s ≡ result N authorized Naive.next t)
        × SameNonce (after L authorized (PerUser.next a) s) (after N authorized Naive.next t)
  next-SameNonce s t same = elim (Bool-cases (fits_u64 (naive_value t + 1))) [
    | inl f ↦
        let p = returned L authorized (PerUser.next a) s (run-next_fits s (rw same f)) in
        let q = returned N authorized Naive.next t (run-naive_next_fits t f) in
        (
          p.0 ∙ ap (λ v. some (v + 1)) same ∙ sym q.0,
          rw
              (
                p.1,
                q.1,
                L.read-write_self (nonce_slot a) (value s + 1) s,
                N.read-write_self (persistent Naive.nonce) (naive_value t + 1) t,
              )
              (ap (λ v. v + 1) same),
        )
    | inr f ↦
        let p = panicked L authorized (PerUser.next a) s (run-next_overflow s (rw same f)) in
        let q = panicked N authorized Naive.next t (run-naive_next_overflow t f) in
        (p.0 ∙ sym q.0, rw (p.1, q.1) same)
  ]

  other-SameNonce :
      (b : Address) (s : L.State) (t : N.State)
      → b ≢ a
      → SameNonce s t
      → SameNonce (after L authorized (PerUser.next b) s) t
  other-SameNonce b s t n same =
      ap (λ o. unwrap_or o 0)
        (frame L authorized (PerUser.next b) s (nonce_slot a)
          (All-of _ _ λ k m. of k (All-in _ _ (next-Within authorized L b s).1 m)))
      ∙ same
    where
      of : (k : Slot (PerUser.DataKey Address)) → In k (nonce_slot b ∷ []) → nonce_slot a ≢ k
      of k (inl e) = λ h. nonce_slot-ne n (sym (h ∙ e))
      of k (inr m) = absurd m

  -- The calls of `a` among `picks`, from these ledgers on.
  abbrev AsOne : List Address → List Address → L.State → N.State → List (Option ℕ) → Type 0
  AsOne picks mine s t answers =
      (answers ≡ replies N authorized (map (λ _. Naive.next) mine) t)
      × (result L authorized (PerUser.current a) (after_all L authorized (map PerUser.next picks) s)
          ≡ result N authorized Naive.current
              (after_all N authorized (map (λ _. Naive.next) mine) t))

  -- Calls of `next` for any accounts in turn, where `a` signs for its own, from ledgers on which
  -- the last nonce of `a` is that of the contract with one nonce for all: `a` gets the answers that
  -- this contract gives to as many calls, panics included, and both tell the same current nonce
  -- afterwards.
  pub next-refines-naive :
      (picks : List Address) (s : L.State) (t : N.State)
      → SameNonce s t
      → let calls = map (λ _. Naive.next) (own eq a picks picks) in
        (own eq a picks (replies L authorized (map PerUser.next picks) s)
          ≡ replies N authorized calls t)
        × (result L authorized
              (PerUser.current a)
              (after_all L authorized (map PerUser.next picks) s)
            ≡ result N authorized Naive.current (after_all N authorized calls t))
  unfolding PerUser.current Naive.current
  next-refines-naive [] s t same = (refl, ap some same)
  next-refines-naive (b ∷ picks) s t same = go (next-refines-naive picks s') (eq b a)
    where
      s' : L.State
      s' = after L authorized (PerUser.next b) s

      mine : List Address
      mine = own eq a picks picks

      answers : List (Option ℕ)
      answers = own eq a picks (replies L authorized (map PerUser.next picks) s')

      go :
          ((t : N.State) → SameNonce s' t → AsOne picks mine s' t answers)
          → (d : Dec (b ≡ a))
          → AsOne picks
              (elim d [ yes _ ↦ b ∷ mine | no _ ↦ mine ])
              s'
              t
              (elim d [ yes _ ↦ result L authorized (PerUser.next b) s ∷ answers | no _ ↦ answers ])
      go rest (yes e) =
          let now =
            subst
              (λ c.
                (result L authorized (PerUser.next c) s ≡ result N authorized Naive.next t)
                × SameNonce (after L authorized (PerUser.next c) s)
                    (after N authorized Naive.next t))
              (sym e) (next-SameNonce s t same) in
          let more = rest (after N authorized Naive.next t) now.1 in
          (ap₂ (λ x l. x ∷ l) now.0 more.0, more.1)
      go rest (no n) = rest t (other-SameNonce b s t n same)
