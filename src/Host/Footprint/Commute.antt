-- ===== src/Host/Footprint/Commute.antt =====
-- The order of two calls, and their footprints.
use slipstream_contracts.Common.{
  ◌≡◌, refl, sym, ap, ◌∙◌, inl, inr, Bool, Option, none, some, All, All-in, All-of, In, NotIn,
  In-or_not, Disjoint-sym, All-append_left, All-append_right, ◌≢◌, Bool-cases, Option-cases,
}
use slipstream_contracts.Host.{Call, done, get, set, auth, check, Ledger, run}
use slipstream_contracts.Host.Footprint.{reads, writes, result, after, Independent, Commute}
use slipstream_contracts.Host.Footprint.Locality.{Matches, locality}

module _ {K : Type 0} {V : K → Type 0} {W : Type 0} (L : Ledger K V) (authorized : W → Bool) where
  open L use {State, read, write, key_eq, read-write_self, read-write_other}

  abbrev Framed : {A : Type 0} → K → State → Option (A × State) → Type 0
  Framed k s none = Unit
  Framed k s (some (_, s')) = read k s' ≡ read k s

  Framed-trans :
      {A : Type 0} (k : K) (s t : State) (r : Option (A × State))
      → read k t ≡ read k s
      → Framed k t r
      → Framed k s r
  Framed-trans k s t none e f = tt
  Framed-trans k s t (some x) e f = f ∙ e

  run-Framed :
      {A : Type 0} (k : K) (p : Call K V W A) (s : State)
      → NotIn k (writes L authorized p s)
      → Framed k s (run L authorized p s)
  run-Framed k (done a) s h = refl
  run-Framed k (get j c) s h = run-Framed k (c (read j s)) s h
  run-Framed k (set j v m) s h =
      Framed-trans k s (write j v s) _ (read-write_other k j v s h.0)
        (run-Framed k m (write j v s) h.1)
  run-Framed k (auth w m) s h = elim (Bool-cases (authorized w)) [
    | inl e ↦ rw e (run-Framed k m s (rw e at h))
    | inr e ↦ rw e tt
  ]
  run-Framed k (check b m) s h = elim (Bool-cases b) [
    | inl e ↦ rw e (run-Framed k m s (rw e at h))
    | inr e ↦ rw e tt
  ]

  -- A call leaves every key alone that is not in its write footprint.
  pub frame :
      {A : Type 0} (p : Call K V W A) (s : State) (k : K)
      → NotIn k (writes L authorized p s)
      → read k (after L authorized p s) ≡ read k s
  frame {A} p s k h = go (run L authorized p s) (run-Framed k p s h)
    where
      go :
          (r : Option (A × State))
          → Framed k s r
          → read k (elim r [ none ↦ s | some (_, s') ↦ s' ]) ≡ read k s
      go none f = refl
      go (some x) f = f

  -- What a call returns and what it leaves, on two ledgers that agree on its read footprint.
  module _ {A : Type 0} (p : Call K V W A) (s t : State)
      (same : All (λ k. read k s ≡ read k t) (reads L authorized p s)) where
    pub result-agree : result L authorized p t ≡ result L authorized p s
    result-agree =
        go (run L authorized p s) (run L authorized p t) (locality L authorized p s t same).0
      where
        go :
            (x y : Option (A × State))
            → Matches L (writes L authorized p s) s t x y
            → ◌≡◌ {A = Option A}
                (elim y [ none ↦ none | some (a, _) ↦ some a ])
                (elim x [ none ↦ none | some (a, _) ↦ some a ])
        go none none m = refl
        go none (some y) m = absurd m
        go (some x) none m = absurd m
        go (some x) (some y) m = ap some (sym m.0)

    pub after-agree :
        (k : K)
        → read k s ≡ read k t
        → read k (after L authorized p s) ≡ read k (after L authorized p t)
    after-agree k e =
        go (run L authorized p s) (run L authorized p t) (locality L authorized p s t same).0
      where
        go :
            (x y : Option (A × State))
            → Matches L (writes L authorized p s) s t x y
            → read k (elim x [ none ↦ s | some (_, s') ↦ s' ])
              ≡ read k (elim y [ none ↦ t | some (_, s') ↦ s' ])
        go none none m = e
        go none (some y) m = absurd m
        go (some x) none m = absurd m
        go (some x) (some y) m = m.1 k (inl e)

    after-agree_written :
        (k : K)
        → In k (writes L authorized p s)
        → result L authorized p s ≢ none
        → read k (after L authorized p s) ≡ read k (after L authorized p t)
    after-agree_written k i =
        go (run L authorized p s) (run L authorized p t) (locality L authorized p s t same).0
      where
        go :
            (x y : Option (A × State))
            → Matches L (writes L authorized p s) s t x y
            → ◌≢◌ {A = Option A} (elim x [ none ↦ none | some (a, _) ↦ some a ]) none
            → read k (elim x [ none ↦ s | some (_, s') ↦ s' ])
              ≡ read k (elim y [ none ↦ t | some (_, s') ↦ s' ])
        go none y m n = absurd (n refl)
        go (some x) none m n = absurd m
        go (some x) (some y) m n = m.1 k (inr i)

  after-panic :
      {A : Type 0} (p : Call K V W A) (s : State)
      → result L authorized p s ≡ none
      → after L authorized p s ≡ s
  after-panic {A} p s = go (run L authorized p s)
    where
      go :
          (x : Option (A × State))
          → ◌≡◌ {A = Option A} (elim x [ none ↦ none | some (a, _) ↦ some a ]) none
          → ◌≡◌ {A = State} (elim x [ none ↦ s | some (_, s') ↦ s' ]) s
      go none e = refl
      go (some x) e = cc

  module _ {A B : Type 0} (p : Call K V W A) (q : Call K V W B) (s : State)
      (free : Independent L authorized p q s) where
    -- `p` leaves alone what `q` reads, and the other way round.
    pub q_agrees : All (λ k. read k s ≡ read k (after L authorized p s)) (reads L authorized q s)
    q_agrees = All-of _ _ λ k i. sym (
        frame p s k (
          All-in _ _
            (Disjoint-sym (writes L authorized p s) (reads L authorized q s)
              (All-of _ _ λ w j. All-append_left _ _ _ (All-in _ _ free.0 j)))
            i))

    p_agrees : All (λ k. read k s ≡ read k (after L authorized q s)) (reads L authorized p s)
    p_agrees = All-of _ _ λ k i. sym (frame q s k (All-in _ _ (Disjoint-sym _ _ free.1) i))

    same_reads :
        (k : K)
        → read k (after L authorized q (after L authorized p s))
          ≡ read k (after L authorized p (after L authorized q s))
    same_reads k = elim (In-or_not key_eq (writes L authorized p s) k) [
      | inl i ↦ elim (Option-cases (result L authorized p s)) [
        | inl panic ↦ rw (
          after-panic p s panic,
          after-panic p (after L authorized q s) (result-agree p s _ p_agrees ∙ panic),
        )
        | inr (a, e) ↦
            frame q (after L authorized p s) k (
              rw (locality L authorized q s _ q_agrees).2
                (All-append_right _ (reads L authorized q s) _ (All-in _ _ free.0 i)))
            ∙ after-agree_written p s (after L authorized q s) p_agrees k i (λ n. cc)
      ]
      | inr n ↦
          sym (after-agree q s (after L authorized p s) q_agrees k (sym (frame p s k n)))
          ∙ sym (frame p (after L authorized q s) k (rw (locality L authorized p s _ p_agrees).2 n))
    ]

    -- Independent calls commute, panics included.
    pub commute : Commute L authorized p q s
    commute = (result-agree q s _ q_agrees, result-agree p s _ p_agrees, same_reads)
