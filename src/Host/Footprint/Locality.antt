-- ===== src/Host/Footprint/Locality.antt =====
-- What a call has to do with the ledger outside its footprint.
use slipstream_contracts.Common.{
  ◌≡◌, refl, sym, ap, ◌∙◌, ◌⊎◌, inl, inr, Bool, Option, none, some, List, ◌∷◌, All, All-in, All-of,
  In, Bool-cases,
}
use slipstream_contracts.Host.{Call, done, get, set, auth, check, Ledger, run}
use slipstream_contracts.Host.Footprint.{reads, writes}

module _ {K : Type 0} {V : K → Type 0} (L : Ledger K V) where
  open L use {State, read, write, key_eq, read-write_self, read-write_other}

  -- Two ledgers that agree on a key still agree on it after the same write.
  write-agree :
      (j k : K) (v : V k) (s t : State)
      → read j s ≡ read j t
      → read j (write k v s) ≡ read j (write k v t)
  write-agree j k v s t e = elim (key_eq j k) [
    | yes p ↦ rw p (read-write_self k v s ∙ sym (read-write_self k v t))
    | no n ↦ read-write_other j k v s n ∙ e ∙ sym (read-write_other j k v t n)
  ]

  -- Two ends of a run: both panicked, or both returned the same value, and they agree on every
  -- key that was written or on which the starts agree.
  abbrev pub Matches :
      {A : Type 0} → List K → State → State → Option (A × State) → Option (A × State) → Type 0
  Matches ws s t none none = Unit
  Matches ws s t none (some _) = ⊥
  Matches ws s t (some _) none = ⊥
  Matches ws s t (some (a, s')) (some (b, t')) =
      (a ≡ b) × ((k : K) → (read k s ≡ read k t) ⊎ In k ws → read k s' ≡ read k t')

  Matches-write :
      {A : Type 0} (k : K) (v : V k) (ws : List K) (s t : State) (x y : Option (A × State))
      → Matches ws (write k v s) (write k v t) x y
      → Matches (k ∷ ws) s t x y
  Matches-write k v ws s t none none h = tt
  Matches-write k v ws s t none (some y) h = h
  Matches-write k v ws s t (some x) none h = h
  Matches-write k v ws s t (some (a, s')) (some (b, t')) h = (
    h.0,
    λ j. elim [
      | inl e ↦ h.1 j (inl (write-agree j k v s t e))
      | inr (inl e) ↦ h.1 j (inl (rw e (read-write_self k v s ∙ sym (read-write_self k v t))))
      | inr (inr m) ↦ h.1 j (inr m)
    ],
  )

  module _ {W : Type 0} (authorized : W → Bool) where
    -- A call on two ledgers that agree on its read footprint does the same on both.
    pub locality :
        {A : Type 0} (p : Call K V W A) (s t : State)
        → All (λ k. read k s ≡ read k t) (reads L authorized p s)
        → Matches (writes L authorized p s) s t (run L authorized p s) (run L authorized p t)
          × (reads L authorized p t ≡ reads L authorized p s)
          × (writes L authorized p t ≡ writes L authorized p s)
    locality (done a) s t h = ((refl, λ k. elim [ inl e ↦ e | inr m ↦ absurd m ]), refl, refl)
    locality (get k c) s t h =
        let ih = locality (c (read k s)) s t h.1 in rw (← h.0) (ih.0, ap (λ l. k ∷ l) ih.1, ih.2)
    locality (set k v m) s t h =
        let ih =
          locality m (write k v s) (write k v t)
            (All-of _ _ (λ j i. write-agree j k v s t (All-in _ _ h i))) in
        (Matches-write k v _ s t _ _ ih.0, ih.1, ap (λ l. k ∷ l) ih.2)
    locality (auth w m) s t h = elim (Bool-cases (authorized w)) [
      | inl e ↦ rw e (locality m s t (rw e at h))
      | inr e ↦ rw e (tt, refl, refl)
    ]
    locality (check b m) s t h = elim (Bool-cases b) [
      | inl e ↦ rw e (locality m s t (rw e at h))
      | inr e ↦ rw e (tt, refl, refl)
    ]
