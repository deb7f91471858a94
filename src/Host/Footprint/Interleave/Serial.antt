-- ===== src/Host/Footprint/Interleave/Serial.antt =====
-- A stage whose calls run at the same time, against its calls one after the other.
use mathlib.Core.Path.{ap₂}
use mathlib.Core.WellFounded.{Acc}
use slipstream_contracts.Common.{
  ◌≡◌, refl, sym, ap, ◌∙◌, subst, ◌⊎◌, inl, inr, ◌≢◌, Bool, true, false, Option, none, some, List,
  [], ◌∷◌, map, All, All-map, if◌then◌else◌,
}
use slipstream_contracts.Host.{Call, done, get, set, auth, check, Ledger, run}
use slipstream_contracts.Host.Footprint.{result, after_all, replies, IsStage}
use slipstream_contracts.Host.Footprint.Together.{together, together-other, after_all-together}
use slipstream_contracts.Host.Footprint.Stage.{stage-replies}
use slipstream_contracts.Host.Footprint.Interleave.Kept.{Step-Kept}
use slipstream_contracts.Host.Footprint.Interleave.{
  Access, read_key, write_key, signed, passed, Step, here, there, Reach, start, later, Next,
  Next-acc,
}

module _ {K : Type 0} {V : K → Type 0} {W : Type 0} (L : Ledger K V) (authorized : W → Bool)
    {A : Type 0} where
  open L use {State, read, write}

  -- Every call goes through.
  abbrev pub Through : List (Call K V W A) → State → Type 0
  Through ps s = All (λ p. result L authorized p s ≢ none) ps

  -- The calls have answered `answers` and left `t`, as they do one after the other.
  abbrev pub Serial : List (Call K V W A) → State → List A → State → Type 0
  Serial ps s answers t =
      (replies L authorized ps s ≡ map some answers)
      × ((k : K) → read k t ≡ read k (after_all L authorized ps s))

  -- Calls that are answered go through.
  pub results-Through :
      (ps : List (Call K V W A)) (s : State)
      → All (λ r. r ≢ none) (map (λ p. result L authorized p s) ps)
      → Through ps s
  results-Through [] s h = tt
  results-Through (p ∷ ps) s h = (h.0, results-Through ps s h.1)

  -- What the calls of a stage keep, over any number of steps.
  record Reached (ps : List (Call K V W A)) (s : State) (qs : List (Call K V W A)) (t : State)
      : Type 0 where
    stage : IsStage L authorized qs t
    through : Through qs t
    results : map (λ p. result L authorized p t) qs ≡ map (λ p. result L authorized p s) ps
    ends : (k : K) → together L authorized qs t k ≡ together L authorized ps s k

  reached :
      {ps : List (Call K V W A)} {s : State} {qs : List (Call K V W A)} {t : State}
      → Reach L authorized ps s qs t
      → IsStage L authorized ps s
      → Through ps s
      → Reached ps s qs t
  reached start h w = record { stage = h; through = w; results = refl; ends = λ k. refl }
  reached {ps} {s} (later {qs} {rs} {t} {u} r st) h w =
      let o = reached r h w in
      let k = Step-Kept L authorized st o.stage o.through in
      record {
        stage = k.stage;
        through = results-Through rs u (rw (k.results) (All-map _ _ qs o.through));
        results = k.results ∙ o.results;
        ends = λ j. k.ends j ∙ o.ends j;
      }

  results-done :
      (answers : List A) (s : State)
      → map (λ p. result L authorized p s) (map done answers) ≡ map some answers
  results-done [] s = refl
  results-done (a ∷ answers) s = ap (λ l. some a ∷ l) (results-done answers s)

  together-done :
      (answers : List A) (s : State) (k : K)
      → together L authorized (map done answers) s k ≡ read k s
  together-done [] s k = refl
  together-done (a ∷ answers) s k =
      together-other L authorized (done a) (map done answers) s k tt ∙ together-done answers s k

  -- However the accesses of a stage are ordered, it ends as its calls do one after the other.
  pub Reach-Serial :
      (ps : List (Call K V W A)) (s : State) (answers : List A) (t : State)
      → IsStage L authorized ps s
      → Through ps s
      → Reach L authorized ps s (map done answers) t
      → Serial ps s answers t
  Reach-Serial ps s answers t h w r =
      let o = reached r h w in
      (
        stage-replies L authorized ps s h ∙ sym o.results ∙ results-done answers t,
        λ k.
            sym (together-done answers t k)
            ∙ o.ends k
            ∙ sym (after_all-together L authorized ps s k h),
      )

  passes :
      (b : Bool) (r : Option (A × State))
      → ◌≢◌ {A = Option A}
          (elim (if b then r else none) [ none ↦ none | some (a, _) ↦ some a ])
          none
      → b ≡ true
  passes true r h = refl
  passes false r h = absurd (h refl)

  -- A call that goes through is done or can make its next access.
  next :
      (p : Call K V W A) (s : State)
      → result L authorized p s ≢ none
      → ((a : A) × (p ≡ done a))
        ⊎ ((p' : Call K V W A) × (t : State) × Access L authorized p s p' t)
  next (done a) s h = inl (a, refl)
  next (get k c) s h = inr (c (read k s), s, read_key k c s)
  next (set k v m) s h = inr (m, write k v s, write_key k v m s)
  next (auth w m) s h = inr (m, s, signed w m s (passes (authorized w) (run L authorized m s) h))
  next (check b m) s h = inr (m, s, passed b m s (passes b (run L authorized m s) h))

  progress :
      (ps : List (Call K V W A)) (s : State)
      → Through ps s
      → ((answers : List A) × (ps ≡ map done answers))
        ⊎ ((qs : List (Call K V W A)) × (t : State) × Step L authorized ps s qs t)
  progress [] s w = inl ([], refl)
  progress (p ∷ ps) s w = elim (next p s w.0) [
    | inr (p', t, a) ↦ inr (p' ∷ ps, t, here a)
    | inl (a, e) ↦ elim (progress ps s w.1) [
      | inr (qs, t, st) ↦ inr (p ∷ qs, t, there st)
      | inl (answers, f) ↦ inl (a ∷ answers, ap₂ (λ x l. x ∷ l) e f)
    ]
  ]

  Reach_trans :
      {ps qs : List (Call K V W A)} {s t : State} {rs : List (Call K V W A)} {u : State}
      → Reach L authorized ps s qs t
      → Reach L authorized qs t rs u
      → Reach L authorized ps s rs u
  Reach_trans r start = r
  Reach_trans r (later r' st) = later (Reach_trans r r') st

  finish :
      (ps : List (Call K V W A)) (s : State)
      → IsStage L authorized ps s
      → Through ps s
      → (qs : List (Call K V W A)) (t : State) → Acc (Next L authorized) qs
      → Reach L authorized ps s qs t
      → (answers : List A) × (u : State) × Reach L authorized ps s (map done answers) u
  finish ps s h w qs t (Acc.intro _ f) r = elim (progress qs t (reached r h w).through) [
    | inl (answers, e) ↦ (answers, t, subst (λ rs. Reach L authorized ps s rs t) e r)
    | inr (rs, u, st) ↦ finish ps s h w rs u (f rs (t, u, st)) (later r st)
  ]

  -- From whatever point the calls of a stage have reached, the accesses come to an end in whatever
  -- order, and there are accesses from that very point after which every call is done. They leave
  -- what the calls do one after the other.
  pub Reach-Ends :
      (ps : List (Call K V W A)) (s : State) (qs : List (Call K V W A)) (t : State)
      → IsStage L authorized ps s
      → Through ps s
      → Reach L authorized ps s qs t
      → Acc (Next L authorized) qs
        × ((answers : List A) × (u : State) × Reach L authorized qs t (map done answers) u
            × Serial ps s answers u)
  Reach-Ends ps s qs t h w r =
      let ends = Next-acc L authorized qs in
      let o = reached r h w in
      let (answers, u, r') = finish qs t o.stage o.through qs t ends start in
      (ends, (answers, u, r', Reach-Serial ps s answers u h w (Reach_trans r r')))
