-- ===== src/Harness/Batch/Outcomes.antt =====
-- What `run_all` and `PatternResult::verdict` of harness/src/lib.rs give for each pattern.
use slipstream_contracts.Common.{
  ℕ, ◌==◌, ◌≡◌, refl, sym, ap, ◌∙◌, ◌⊎◌, inl, inr, ◌≢◌, true, false, Option, none, some, List, [],
  ◌∷◌, Result, ok, err, if_of,
}
use slipstream_contracts.Harness.Text.{Text, lit}
use slipstream_contracts.Harness.Model.{ContentionDelta, is_improvement}
use slipstream_contracts.Harness.Runner.{HarnessError, show_error, CoreRunner, Parser, analyze_pair}
use slipstream_contracts.Harness.Patterns.{Pattern, is_complete}
use slipstream_contracts.Harness.Batch.{
  PatternResult, verdict, outcome, analyze_sides, analyze_pattern, run_all,
}

first_byte : Text → ℕ
first_byte [] = 0
first_byte (b ∷ _) = b

other_word : (s : Text) → first_byte s == b'u' ≡ false → s ≢ lit "unknown"
unfolding first_byte
other_word s h e = ap_word (sym h ∙ ap (λ t. first_byte t == b'u') e)
  where
    ap_word : false ≡ true → ⊥
    ap_word q = cc

module _ (from_str : Parser) (runner : CoreRunner) where
  -- The names of the sides that are not there, in their order.
  abbrev pub absent : List (Text × Option Text) → List Text
  absent [] = []
  absent ((name, some _) ∷ sides) = absent sides
  absent ((name, none) ∷ sides) = name ∷ absent sides

  -- A side is missing: nothing is analysed.
  abbrev pub IsMissing : Pattern → PatternResult → Type 0
  IsMissing p r =
      (is_complete p ≡ false)
      × (r.missing_sides ≡ absent ((lit "naive", p.naive) ∷ (lit "optimized", p.optimized) ∷ []))
      × (r.delta ≡ none)
      × (r.error ≡ none)

  -- The pair has been analysed.
  abbrev pub IsAnalyzed : Pattern → PatternResult → Type 0
  IsAnalyzed p r =
      (naive : Text) × (optimized : Text) × (d : ContentionDelta) × (p.naive ≡ some naive)
      × (p.optimized ≡ some optimized)
      × (analyze_pair from_str runner naive optimized ≡ ok d)
      × (r.delta ≡ some d)
      × (r.missing_sides ≡ [])
      × (r.error ≡ none)

  -- The pair is complete, and its analysis has failed.
  abbrev pub IsFailed : Pattern → PatternResult → Type 0
  IsFailed p r =
      (naive : Text) × (optimized : Text) × (e : HarnessError) × (p.naive ≡ some naive)
      × (p.optimized ≡ some optimized)
      × (analyze_pair from_str runner naive optimized ≡ err e)
      × (r.delta ≡ none)
      × (r.missing_sides ≡ [])
      × (r.error ≡ some (show_error e))

  abbrev pub IsOutcome : Pattern → PatternResult → Type 0
  IsOutcome p r =
      (r.pattern ≡ p.name)
      × (IsMissing p r ⊎ (IsAnalyzed p r ⊎ IsFailed p r))
      × (verdict r ≢ lit "unknown")

  -- The results stand in the order of the patterns, one for each.
  abbrev pub AreOutcomes : List Pattern → List PatternResult → Type 0
  AreOutcomes [] [] = Unit
  AreOutcomes [] (_ ∷ _) = ⊥
  AreOutcomes (_ ∷ _) [] = ⊥
  AreOutcomes (p ∷ ps) (r ∷ rs) = IsOutcome p r × AreOutcomes ps rs

  outcome-IsOutcome :
      (name dir n o : Text) (a : Result ContentionDelta HarnessError)
      → analyze_pair from_str runner n o ≡ a
      → IsOutcome
          (record { name = name; dir = dir; naive = some n; optimized = some o })
          (outcome name a)
  unfolding verdict first_byte
  outcome-IsOutcome name dir n o (ok d) e = (
    refl,
    inr (inl (n, o, d, refl, refl, e, refl, refl, refl)),
    if_of (λ t. t ≢ lit "unknown") (is_improvement d) (λ _. other_word _ refl)
        (λ _. other_word _ refl),
  )
  outcome-IsOutcome name dir n o (err x) e =
      (refl, inr (inr (n, o, x, refl, refl, e, refl, refl, refl)), other_word _ refl)

  analyze_pattern-IsOutcome : (p : Pattern) → IsOutcome p (analyze_pattern from_str runner p)
  unfolding analyze_pattern verdict is_complete first_byte
  analyze_pattern-IsOutcome p = of p.naive p.optimized
    where
      of :
          (n o : Option Text)
          → IsOutcome
              (record { name = p.name; dir = p.dir; naive = n; optimized = o })
              (analyze_sides from_str runner p.name n o)
      of none none = (refl, inl (refl, refl, refl, refl), other_word _ refl)
      of none (some o) = (refl, inl (refl, refl, refl, refl), other_word _ refl)
      of (some n) none = (refl, inl (refl, refl, refl, refl), other_word _ refl)
      of (some n) (some o) = outcome-IsOutcome p.name p.dir n o _ refl

  -- A batch gives one result for each pattern, in order and under its name. A pattern with a
  -- missing side has no delta and no error, and lists as missing just the sides that are not there,
  -- `naive` before `optimized`; a complete one has the delta of its analysis, or the text of the
  -- analysis' error; and no result has the verdict `unknown`.
  pub run_all-AreOutcomes : (ps : List Pattern) → AreOutcomes ps (run_all from_str runner ps)
  unfolding run_all
  run_all-AreOutcomes [] = tt
  run_all-AreOutcomes (p ∷ ps) = (analyze_pattern-IsOutcome p, run_all-AreOutcomes ps)
