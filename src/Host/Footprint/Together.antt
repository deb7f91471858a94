-- ===== src/Host/Footprint/Together.antt =====
-- A stage at once: every call runs on the ledger that the stage starts from, and what the calls
-- have written is put together afterwards.
use slipstream_contracts.Common.{
  ◌≡◌, refl, sym, ap, ◌∙◌, ◌⊎◌, inl, inr, Bool, Option, List, [], ◌∷◌, All, All-append_right,
  All-of, In, NotIn, NotIn-In, In-or_not, All-in,
}
use slipstream_contracts.Host.{Call, Ledger}
use slipstream_contracts.Host.Footprint.{reads, writes, after, after_all, Independent, IsStage}
use slipstream_contracts.Host.Footprint.Locality.{locality}
use slipstream_contracts.Host.Footprint.Commute.{after-agree, q_agrees, frame}
use slipstream_contracts.Host.Footprint.Independence.{IsStage-after}

module _ {K : Type 0} {V : K → Type 0} {W : Type 0} (L : Ledger K V) (authorized : W → Bool) where
  open L use {State, read, key_eq}

  module _ {A : Type 0} where
    -- A key gets what the call that writes it has left there, and keeps its entry where no call
    -- writes it.
    abbrev pub together : List (Call K V W A) → State → (k : K) → Option (V k)
    together [] s k = read k s
    together (p ∷ ps) s k = elim (In-or_not key_eq (writes L authorized p s) k) [
      | inl _ ↦ read k (after L authorized p s)
      | inr _ ↦ together ps s k
    ]

    pub together-written :
        (p : Call K V W A) (ps : List (Call K V W A)) (s : State) (k : K)
        → In k (writes L authorized p s)
        → together (p ∷ ps) s k ≡ read k (after L authorized p s)
    together-written p ps s k i = go (In-or_not key_eq (writes L authorized p s) k)
      where
        go :
            (d : In k (writes L authorized p s) ⊎ NotIn k (writes L authorized p s))
            → ◌≡◌ {A = Option (V k)}
                (elim d [ inl _ ↦ read k (after L authorized p s) | inr _ ↦ together ps s k ])
                (read k (after L authorized p s))
        go (inl _) = refl
        go (inr n) = absurd (NotIn-In (writes L authorized p s) k n i)

    pub together-other :
        (p : Call K V W A) (ps : List (Call K V W A)) (s : State) (k : K)
        → NotIn k (writes L authorized p s)
        → together (p ∷ ps) s k ≡ together ps s k
    together-other p ps s k n = go (In-or_not key_eq (writes L authorized p s) k)
      where
        go :
            (d : In k (writes L authorized p s) ⊎ NotIn k (writes L authorized p s))
            → ◌≡◌ {A = Option (V k)}
                (elim d [ inl _ ↦ read k (after L authorized p s) | inr _ ↦ together ps s k ])
                (together ps s k)
        go (inl i) = absurd (NotIn-In (writes L authorized p s) k n i)
        go (inr _) = refl

    -- The call reads the same on both ledgers, so that it does the same on both.
    abbrev pub Same : State → State → Call K V W A → Type 0
    Same s t q = All (λ k. read k s ≡ read k t) (reads L authorized q s)

    pub writes-Same :
        (s t : State) (q : Call K V W A)
        → Same s t q
        → writes L authorized q t ≡ writes L authorized q s
    writes-Same s t q h = (locality L authorized q s t h).2

    -- A key that no call writes.
    pub together-unwritten :
        (qs : List (Call K V W A)) (s : State) (k : K)
        → All (λ q. NotIn k (writes L authorized q s)) qs
        → together qs s k ≡ read k s
    together-unwritten [] s k h = refl
    together-unwritten (q ∷ qs) s k h =
        go (together-unwritten qs s k h.1) (In-or_not key_eq (writes L authorized q s) k)
      where
        go :
            together qs s k ≡ read k s
            → (d : In k (writes L authorized q s) ⊎ NotIn k (writes L authorized q s))
            → ◌≡◌ {A = Option (V k)}
                (elim d [ inl _ ↦ read k (after L authorized q s) | inr _ ↦ together qs s k ])
                (read k s)
        go rest (inl i) = absurd (NotIn-In (writes L authorized q s) k h.0 i)
        go rest (inr n) = rest

    -- Calls that do the same on two ledgers, at a key where the ledgers agree.
    pub together-Same :
        (qs : List (Call K V W A)) (s t : State) (k : K)
        → All (Same s t) qs
        → read k s ≡ read k t
        → together qs t k ≡ together qs s k
    together-Same [] s t k h e = sym e
    together-Same (q ∷ qs) s t k h e =
        ap
          (λ ws. elim (In-or_not key_eq ws k) [
            | inl _ ↦ read k (after L authorized q t)
            | inr _ ↦ together qs t k
          ])
          (writes-Same s t q h.0)
        ∙ go (together-Same qs s t k h.1 e) (In-or_not key_eq (writes L authorized q s) k)
      where
        go :
            together qs t k ≡ together qs s k
            → (d : In k (writes L authorized q s) ⊎ NotIn k (writes L authorized q s))
            → ◌≡◌ {A = Option (V k)}
                (elim d [ inl _ ↦ read k (after L authorized q t) | inr _ ↦ together qs t k ])
                (elim d [ inl _ ↦ read k (after L authorized q s) | inr _ ↦ together qs s k ])
        go rest (inl i) = sym (after-agree L authorized q s t h.0 k e)
        go rest (inr n) = rest

    -- The calls that are independent of `p` do the same after it as before it.
    pub Same-after :
        (p : Call K V W A) (s : State) (qs : List (Call K V W A))
        → All (λ q. Independent L authorized p q s) qs
        → All (Same s (after L authorized p s)) qs
    Same-after p s qs free = All-of _ qs (λ q m. q_agrees L authorized p q s (All-in _ qs free m))

    -- A key that `p` writes is written by none of them.
    pub unwritten :
        (p : Call K V W A) (s : State) (qs : List (Call K V W A)) (k : K)
        → All (λ q. Independent L authorized p q s) qs
        → In k (writes L authorized p s)
        → All (λ q. NotIn k (writes L authorized q s)) qs
    unwritten p s qs k free i = All-of _ qs λ q m.
        All-append_right _ (reads L authorized q s) (writes L authorized q s)
          (All-in _ (writes L authorized p s) (All-in _ qs free m).0 i)

    -- Nor is it on a ledger on which they do the same.
    pub unwritten-Same :
        (s t : State) (qs : List (Call K V W A)) (k : K)
        → All (Same s t) qs
        → All (λ q. NotIn k (writes L authorized q s)) qs
        → All (λ q. NotIn k (writes L authorized q t)) qs
    unwritten-Same s t qs k h n =
        All-of _ qs λ q m. rw (writes-Same s t q (All-in _ qs h m)) (All-in _ qs n m)

    -- One after the other, the calls of a stage leave what they leave at once.
    pub after_all-together :
        (ps : List (Call K V W A)) (s : State) (k : K)
        → IsStage L authorized ps s
        → read k (after_all L authorized ps s) ≡ together ps s k
    after_all-together [] s k h = refl
    after_all-together (p ∷ ps) s k h =
        after_all-together ps (after L authorized p s) k (IsStage-after L authorized p ps s h)
        ∙ go (In-or_not key_eq (writes L authorized p s) k)
      where
        go :
            (d : In k (writes L authorized p s) ⊎ NotIn k (writes L authorized p s))
            → ◌≡◌ {A = Option (V k)}
                (together ps (after L authorized p s) k)
                (elim d [ inl _ ↦ read k (after L authorized p s) | inr _ ↦ together ps s k ])
        go (inl i) = together-unwritten ps (after L authorized p s) k (
            unwritten-Same s (after L authorized p s) ps k (Same-after p s ps h.0)
              (unwritten p s ps k h.0 i))
        go (inr n) =
            together-Same ps s (after L authorized p s) k (Same-after p s ps h.0)
              (sym (frame L authorized p s k n))
