-- ===== src/Host/Footprint/Interleave/Stages.antt =====
-- A schedule run stage by stage, where the calls of a stage run at the same time.
use mathlib.Core.Path.{ap₂}
use mathlib.Core.List.{map-append}
use slipstream_contracts.Common.{
  flattened-map, none, ◌≡◌, refl, sym, ap, ◌∙◌, Bool, some, List, [], ◌∷◌, ◌++◌, map, flattened,
  All, All-append_left, All-append_right, subst, All-of, All-in, ◌≢◌,
}
use slipstream_contracts.Host.{Call, done, Ledger}
use slipstream_contracts.Host.Footprint.{
  result, after, after_all, replies, IsStage, IsSchedule, Agree,
}
use slipstream_contracts.Host.Footprint.Together.{Same}
use slipstream_contracts.Host.Footprint.Commute.{after-agree, result-agree}
use slipstream_contracts.Host.Footprint.Stage.{after_all-Agree, stage-replies}
use slipstream_contracts.Host.Footprint.Interleave.{Reach}
use slipstream_contracts.Host.Footprint.Interleave.Moved.{IsStage-Same}
use slipstream_contracts.Host.Footprint.Interleave.Serial.{
  Through, Serial, Reach-Serial, results-Through,
}

module _ {K : Type 0} {V : K → Type 0} {W : Type 0} (L : Ledger K V) (authorized : W → Bool)
    {A : Type 0} where
  open L use {State, read}

  -- Every stage runs until all its calls have answered, in whatever order of their accesses.
  pub data Runs : List (List (Call K V W A)) → State → List (List A) → State → Type 0 where
    no_stages : {s : State} → Runs [] s [] s
    stage :
        {ps : List (Call K V W A)} {stages : List (List (Call K V W A))} {s t u : State}
        {answers : List A} {later_answers : List (List A)}
        → Reach L authorized ps s (map done answers) t
        → Runs stages t later_answers u
        → Runs (ps ∷ stages) s (answers ∷ later_answers) u

  module _ (s t : State) (agree : Agree L authorized s t) where
    Agree-Same : (ps : List (Call K V W A)) → All (Same L authorized s t) ps
    Agree-Same ps = All-of _ ps λ p _. All-of _ _ λ k _. agree k

    Agree-Through :
        (ps : List (Call K V W A)) → Through L authorized ps s → Through L authorized ps t
    Agree-Through ps w = All-of _ ps λ p m e.
        All-in _ ps w m (sym (result-agree L authorized p s t (All-of _ _ λ k _. agree k)) ∙ e)

  Agree-replies :
      (ps : List (Call K V W A)) (s t : State)
      → Agree L authorized s t
      → replies L authorized ps t ≡ replies L authorized ps s
  Agree-replies [] s t agree = refl
  Agree-replies (p ∷ ps) s t agree =
      ap₂ (λ x l. x ∷ l) (result-agree L authorized p s t (All-of _ _ λ k _. agree k))
        (Agree-replies ps (after L authorized p s) (after L authorized p t)
          (λ k. after-agree L authorized p s t (All-of _ _ λ j _. agree j) k (agree k)))

  replies-append :
      (ps qs : List (Call K V W A)) (s : State)
      → replies L authorized (ps ++ qs) s
        ≡ replies L authorized ps s ++ replies L authorized qs (after_all L authorized ps s)
  replies-append [] qs s = refl
  replies-append (p ∷ ps) qs s =
      ap (λ l. result L authorized p s ∷ l) (replies-append ps qs (after L authorized p s))

  after_all-append :
      (ps qs : List (Call K V W A)) (s : State)
      → after_all L authorized (ps ++ qs) s
        ≡ after_all L authorized qs (after_all L authorized ps s)
  after_all-append [] qs s = refl
  after_all-append (p ∷ ps) qs s = after_all-append ps qs (after L authorized p s)

  Runs-Serial_from :
      (stages : List (List (Call K V W A))) (s t : State) (answers : List (List A)) (u : State)
      → Agree L authorized s t
      → IsSchedule L authorized stages s
      → Runs stages t answers u
      → Serial L authorized (flattened stages) s (flattened answers) u
  Runs-Serial_from [] s t answers u agree h no_stages = (refl, λ k. sym (agree k))
  Runs-Serial_from (ps ∷ stages) s t answers u agree h
        (stage {t = t'} {answers = now} {later_answers = rest} r runs) =
      let first =
        Reach-Serial L authorized ps t now t'
          (IsStage-Same L authorized s t ps (Agree-Same s t agree ps) h.0)
          (Agree-Through s t agree ps h.1) r in
      let after_first : Agree L authorized (after_all L authorized ps s) t' =
        λ k. after_all-Agree L authorized ps s t agree k ∙ sym (first.1 k) in
      let more =
        Runs-Serial_from stages (after_all L authorized ps s) t' rest u after_first h.2 runs in
      (
        replies-append ps (flattened stages) s
            ∙ ap₂ (λ xs ys. xs ++ ys) (sym (Agree-replies ps s t agree) ∙ first.0) more.0
            ∙ sym (map-append some now (flattened rest)),
        λ k. more.1 k ∙ ap (read k) (sym (after_all-append ps (flattened stages) s)),
      )

  -- It ends as the calls of all stages do one after the other.
  pub Runs-Serial :
      (stages : List (List (Call K V W A))) (s : State) (answers : List (List A)) (u : State)
      → IsSchedule L authorized stages s
      → Runs stages s answers u
      → Serial L authorized (flattened stages) s (flattened answers) u
  Runs-Serial stages s answers u h r = Runs-Serial_from stages s s answers u (λ k. refl) h r

  -- Stages are a schedule where all calls go through one after the other.
  IsSchedule-replies :
      {I : Type 0} (call : I → Call K V W A) (P : List I → Type 0) (stages : List (List I))
      (s : State)
      → ((is : List I) (t : State) → P is → IsStage L authorized (map call is) t)
      → All P stages
      → All (λ r. r ≢ none) (replies L authorized (map call (flattened stages)) s)
      → IsSchedule L authorized (map (map call) stages) s
  IsSchedule-replies call P [] s free h w = tt
  IsSchedule-replies call P (is ∷ stages) s free h w =
      let ps = map call is in
      let now = free is s h.0 in
      let both : All (λ r. r ≢ none)
          (replies L authorized ps s
            ++ replies L authorized (map call (flattened stages)) (after_all L authorized ps s)) =
        subst (All (λ r. r ≢ none))
          (ap (λ qs. replies L authorized qs s) (map-append call is (flattened stages))
            ∙ replies-append ps (map call (flattened stages)) s)
          w in
      (
        now,
        results-Through L authorized ps s (
            subst (All (λ r. r ≢ none)) (stage-replies L authorized ps s now)
              (All-append_left _ (replies L authorized ps s) _ both)),
        IsSchedule-replies call P stages (after_all L authorized ps s) free h.1
            (All-append_right _ (replies L authorized ps s) _ both),
      )

  -- So however the accesses of each stage are ordered, such stages end as their calls do one after
  -- the other.
  pub stages-Serial :
      {I : Type 0} (call : I → Call K V W A) (P : List I → Type 0) (stages : List (List I))
      (s : State) (answers : List (List A)) (u : State)
      → ((is : List I) (t : State) → P is → IsStage L authorized (map call is) t)
      → All P stages
      → All (λ r. r ≢ none) (replies L authorized (map call (flattened stages)) s)
      → Runs (map (map call) stages) s answers u
      → Serial L authorized (map call (flattened stages)) s (flattened answers) u
  stages-Serial call P stages s answers u free h w runs =
      subst (λ calls. Serial L authorized calls s (flattened answers) u) (flattened-map call stages)
        (Runs-Serial (map (map call) stages) s answers u
          (IsSchedule-replies call P stages s free h w) runs)

  -- A further call gets the answer that it gets after the calls one after the other.
  pub Serial-result :
      {B : Type 0} (q : Call K V W B) (ps : List (Call K V W A)) (s : State) (answers : List A)
      (u : State)
      → Serial L authorized ps s answers u
      → result L authorized q u ≡ result L authorized q (after_all L authorized ps s)
  Serial-result q ps s answers u serial =
      result-agree L authorized q (after_all L authorized ps s) u
        (All-of _ _ (λ k _. sym (serial.1 k)))
