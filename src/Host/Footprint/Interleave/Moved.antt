-- ===== src/Host/Footprint/Interleave/Moved.antt =====
-- One access of a call, and the calls that are independent of the whole.
use mathlib.Core.Path.{ap₂}
use slipstream_contracts.Common.{
  ◌≡◌, refl, sym, ap, ◌∙◌, subst, ◌≢◌, Bool, Option, none, some, List, [], ◌∷◌, ◌++◌, map, All,
  All-in, All-of, All-append_left, All-append_right, NotIn, Disjoint, Disjoint-sym, Disjoint-append,
  Disjoint-append_left, Disjoint-append_right,
}
use slipstream_contracts.Host.{Call, Ledger, run}
use slipstream_contracts.Host.Footprint.{reads, writes, result, after, Independent, IsStage}
use slipstream_contracts.Host.Footprint.Locality.{locality}
use slipstream_contracts.Host.Footprint.Commute.{result-agree}
use slipstream_contracts.Host.Footprint.Together.{Same}
use slipstream_contracts.Host.Footprint.Interleave.{Access, read_key, write_key, signed, passed}

-- The ledgers differ at these keys at most.
abbrev pub SameBut :
    {K : Type 0} {V : K → Type 0} (L : Ledger K V) → List K → L.State → L.State → Type 0
SameBut {K} L ks s t = (k : K) → NotIn k ks → L.read k s ≡ L.read k t

module _ {K : Type 0} {V : K → Type 0} {W : Type 0} (L : Ledger K V) (authorized : W → Bool)
    {A : Type 0} where
  open L use {State, read, write, key_eq, read-write_other}

  -- An access of a call: what is left of it runs as the whole did, on a part of its footprint.
  pub record Moved (p : Call K V W A) (s : State) (p' : Call K V W A) (t : State) : Type 0 where
    pub same_run : run L authorized p' t ≡ run L authorized p s
    read_now : List K
    pub written : List K
    reads_eq : reads L authorized p s ≡ read_now ++ reads L authorized p' t
    pub writes_eq : writes L authorized p s ≡ written ++ writes L authorized p' t
    pub same : SameBut L written s t

  pub Access-Moved :
      {p : Call K V W A} {s : State} {p' : Call K V W A} {t : State}
      → Access L authorized p s p' t
      → Moved p s p' t
  Access-Moved (read_key k c s) = record {
    same_run = refl;
    read_now = k ∷ [];
    written = [];
    reads_eq = refl;
    writes_eq = refl;
    same = λ _ _. refl;
  }
  Access-Moved (write_key k v m s) = record {
    same_run = refl;
    read_now = [];
    written = k ∷ [];
    reads_eq = refl;
    writes_eq = refl;
    same = λ j n. sym (read-write_other j k v s n.0);
  }
  Access-Moved (signed w m s e) = record {
    same_run = rw e refl;
    read_now = [];
    written = [];
    reads_eq = rw e refl;
    writes_eq = rw e refl;
    same = λ _ _. refl;
  }
  Access-Moved (passed b m s e) = record {
    same_run = rw e refl;
    read_now = [];
    written = [];
    reads_eq = rw e refl;
    writes_eq = rw e refl;
    same = λ _ _. refl;
  }

  pub Disjoint-Same :
      (ks : List K) (s t : State) (q : Call K V W A)
      → SameBut L ks s t
      → Disjoint ks (reads L authorized q s)
      → Same L authorized s t q
  Disjoint-Same ks s t q same h =
      All-of _ _ (λ k m. same k (All-in _ _ (Disjoint-sym ks (reads L authorized q s) h) m))

  -- Two calls that do the same on both ledgers are as independent on the one as on the other.
  pub Independent-Same :
      (s t : State) (p q : Call K V W A)
      → Same L authorized s t p
      → Same L authorized s t q
      → Independent L authorized p q s
      → Independent L authorized p q t
  Independent-Same s t p q hp hq free =
      let lp = locality L authorized p s t hp in
      let lq = locality L authorized q s t hq in rw (lp.1, lp.2, lq.1, lq.2) free

  pub IsStage-Same :
      (s t : State) (ps : List (Call K V W A))
      → All (Same L authorized s t) ps
      → IsStage L authorized ps s
      → IsStage L authorized ps t
  IsStage-Same s t [] h stage = tt
  IsStage-Same s t (p ∷ ps) h stage = (
    All-of _ ps λ q m. Independent-Same s t p q h.0 (All-in _ ps h.1 m) (All-in _ ps stage.0 m),
    IsStage-Same s t ps h.1 stage.1,
  )

  pub results-Same :
      (s t : State) (ps : List (Call K V W A))
      → All (Same L authorized s t) ps
      → map (λ p. result L authorized p t) ps ≡ map (λ p. result L authorized p s) ps
  results-Same s t [] h = refl
  results-Same s t (p ∷ ps) h =
      ap₂ (λ x l. x ∷ l) (result-agree L authorized p s t h.0) (results-Same s t ps h.1)

  Independent-self_append :
      (q : Call K V W A) (s : State) (p : Call K V W A)
      → Independent L authorized q p s
      → Disjoint (writes L authorized p s) (reads L authorized q s ++ writes L authorized q s)
  Independent-self_append q s p h =
      Disjoint-append (writes L authorized p s) (reads L authorized q s) (writes L authorized q s)
        h.1
        (Disjoint-sym (writes L authorized q s) (writes L authorized p s) (
          Disjoint-append_right (writes L authorized q s) (reads L authorized p s)
            (writes L authorized p s) h.0))

  -- A call that is independent of the whole is untouched by the access, and independent of the rest.
  module _ {p p' : Call K V W A} {s t : State} (m : Moved p s p' t) (q : Call K V W A)
      (free : Independent L authorized q p s) where
    pub written-Disjoint : Disjoint m.written (reads L authorized q s ++ writes L authorized q s)
    written-Disjoint = All-append_left _ m.written (writes L authorized p' t) (
        subst (λ ws. Disjoint ws (reads L authorized q s ++ writes L authorized q s)) m.writes_eq
          (Independent-self_append q s p free))

    pub Moved-Same : Same L authorized s t q
    Moved-Same = Disjoint-Same m.written s t q m.same (
        Disjoint-append_left m.written (reads L authorized q s) (writes L authorized q s)
          written-Disjoint)

    pub Moved-Independent : Independent L authorized q p' t
    Moved-Independent =
        let l = locality L authorized q s t Moved-Same in
        let ws = writes L authorized q s in
        let old_reads =
          Disjoint-append_left ws (reads L authorized p s) (writes L authorized p s) free.0 in
        let old_writes =
          Disjoint-append_right ws (reads L authorized p s) (writes L authorized p s) free.0 in
        rw (l.1, l.2)
          (
            Disjoint-append ws (reads L authorized p' t) (writes L authorized p' t)
                (Disjoint-append_right ws m.read_now (reads L authorized p' t)
                  (subst (Disjoint ws) m.reads_eq old_reads))
                (Disjoint-append_right ws m.written (writes L authorized p' t)
                  (subst (Disjoint ws) m.writes_eq old_writes)),
            All-append_right _ m.written (writes L authorized p' t)
                (subst (λ vs. Disjoint vs (reads L authorized q s)) m.writes_eq free.1),
          )

  -- A call that goes through leaves what the rest of it leaves.
  pub Moved-after :
      {p p' : Call K V W A} {s t : State}
      → Moved p s p' t
      → result L authorized p s ≢ none
      → after L authorized p' t ≡ after L authorized p s
  Moved-after {p} {p'} {s} {t} m n =
      ap (λ r. elim r [ none ↦ t | some (_, u) ↦ u ]) m.same_run ∙ go (run L authorized p s) n
    where
      go :
          (r : Option (A × State))
          → ◌≢◌ {A = Option A} (elim r [ none ↦ none | some (a, _) ↦ some a ]) none
          → ◌≡◌ {A = State}
              (elim r [ none ↦ t | some (_, u) ↦ u ])
              (elim r [ none ↦ s | some (_, u) ↦ u ])
      go none n = absurd (n refl)
      go (some x) n = refl

  pub Moved-result :
      {p p' : Call K V W A} {s t : State}
      → Moved p s p' t
      → result L authorized p' t ≡ result L authorized p s
  Moved-result m = ap (λ r. elim r [ none ↦ none | some (a, _) ↦ some a ]) m.same_run
