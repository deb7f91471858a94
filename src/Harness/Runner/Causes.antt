-- ===== src/Harness/Runner/Causes.antt =====
-- Why `analyze_pair` of harness/src/lib.rs with the `SubprocessRunner` gives a delta or an error.
use slipstream_contracts.Common.{
  ◌≡◌, refl, sym, ap, ◌∙◌, subst, ◌↔◌, ◌⊎◌, inl, inr, Bool, true, false, Bool-cases, [], ◌∷◌,
  Result, ok, err, if◌then◌else◌,
}
use slipstream_contracts.Harness.Text.{Text, lit}
use slipstream_contracts.Harness.Model.{DiffReport, ContentionDelta, contention_delta}
use slipstream_contracts.Harness.Runner.{
  HarnessError, spawn, command, parse, Parser, parsed, analyzed, analyze_pair, Output, Platform,
  decoded, finished, run, subprocess_runner,
}

module _ (from_str : Parser) (P : Platform) where
  -- The process ended with success, and its output is the JSON of a report with this delta.
  abbrev pub IsMeasured : Result Output Text → ContentionDelta → Type 0
  IsMeasured r d =
      (out : Output) × (text : Text) × (report : DiffReport) × (r ≡ ok out)
      × (out.success ≡ true)
      × (P.from_utf8 out.stdout ≡ ok text)
      × (from_str text ≡ ok report)
      × (contention_delta report ≡ d)

  -- The process could not be launched; it ended without success; or its output is not UTF-8, or
  -- not the JSON of a report.
  abbrev pub IsFailure : Result Output Text → HarnessError → Type 0
  IsFailure r (spawn msg) = r ≡ err msg
  IsFailure r (command code stderr) =
      (out : Output) × (r ≡ ok out)
      × (out.success ≡ false)
      × (out.code ≡ code)
      × (P.from_utf8_lossy out.stderr ≡ stderr)
  IsFailure r (parse msg) =
      (out : Output) × (r ≡ ok out)
      × (out.success ≡ true)
      × ((P.from_utf8 out.stdout ≡ err msg)
          ⊎ ((text : Text) × (P.from_utf8 out.stdout ≡ ok text) × (from_str text ≡ err msg)))

  answer : Result Output Text → Result ContentionDelta HarnessError
  unfolding analyzed finished
  answer r = analyzed from_str (finished P r)

  -- The answer to a process that has ended.
  ended :
      (r : Result Output Text) (out : Output) (b : Bool)
      → r ≡ ok out
      → out.success ≡ b
      → answer r
        ≡ analyzed from_str (
            if b
            then decoded (P.from_utf8 out.stdout)
            else err (command out.code (P.from_utf8_lossy out.stderr)))
  unfolding answer
  ended r out b e s =
      ap answer e
      ∙ ap
          (λ b. analyzed from_str (
            if b
            then decoded (P.from_utf8 out.stdout)
            else err (command out.code (P.from_utf8_lossy out.stderr))))
          s

  measured : (r : Result Output Text) (d : ContentionDelta) → IsMeasured r d → answer r ≡ ok d
  unfolding analyzed decoded parsed
  measured r d (out, text, report, e, s, u, f, g) =
      ended r out true e s ∙ ap (λ u. analyzed from_str (decoded u)) u ∙ ap parsed f ∙ ap ok g

  failed : (r : Result Output Text) (x : HarnessError) → IsFailure r x → answer r ≡ err x
  unfolding analyzed decoded parsed answer
  failed r (spawn msg) e = ap answer e
  failed r (command code stderr) (out, e, s, c, t) =
      ended r out false e s
      ∙ ap (λ c. err (command c (P.from_utf8_lossy out.stderr))) c
      ∙ ap (λ t. err (command code t)) t
  failed r (parse msg) (out, e, s, inl u) =
      ended r out true e s ∙ ap (λ u. analyzed from_str (decoded u)) u
  failed r (parse msg) (out, e, s, inr (text, u, f)) =
      ended r out true e s ∙ ap (λ u. analyzed from_str (decoded u)) u ∙ ap parsed f

  -- One of them is the case.
  abbrev Explained : Result Output Text → Type 0
  Explained r = ((d : ContentionDelta) × IsMeasured r d) ⊎ ((x : HarnessError) × IsFailure r x)

  explained : (r : Result Output Text) → Explained r
  explained (err msg) = inr (spawn msg, refl)
  explained (ok out) = elim (Bool-cases out.success) [
    | inl s ↦ decoding s (P.from_utf8 out.stdout) refl
    | inr s ↦ inr (command out.code (P.from_utf8_lossy out.stderr), (out, refl, s, refl, refl))
  ]
    where
      parsing :
          out.success ≡ true
          → (text : Text) → P.from_utf8 out.stdout ≡ ok text
          → (q : Result DiffReport Text) → from_str text ≡ q
          → Explained (ok out)
      parsing s text u (ok report) f =
          inl (contention_delta report, (out, text, report, refl, s, u, f, refl))
      parsing s text u (err msg) f = inr (parse msg, (out, refl, s, inr (text, u, f)))

      decoding :
          out.success ≡ true
          → (u : Result Text Text) → P.from_utf8 out.stdout ≡ u
          → Explained (ok out)
      decoding s (ok text) e = parsing s text e (from_str text) refl
      decoding s (err msg) e = inr (parse msg, (out, refl, s, inl e))

  ok_same : {A B : Type 0} {a b : A} → ◌≡◌ {A = Result A B} (ok a) (ok b) → a ≡ b
  ok_same h = cc

  err_same : {A B : Type 0} {a b : B} → ◌≡◌ {A = Result A B} (err a) (err b) → a ≡ b
  err_same h = cc

  ok_err : {A B : Type 0} {a : A} {b : B} → ◌≡◌ {A = Result A B} (ok a) (err b) → ⊥
  ok_err h = cc

  answer_iff :
      (r : Result Output Text)
      → ((d : ContentionDelta) → answer r ≡ ok d ↔ IsMeasured r d)
        × ((x : HarnessError) → answer r ≡ err x ↔ IsFailure r x)
  answer_iff r = (
    λ d. (
      (λ h. elim (explained r) [
        | inl (c, m) ↦ subst (IsMeasured r) (ok_same (sym (measured r c m) ∙ h)) m
        | inr (x, f) ↦ absurd (ok_err (sym h ∙ failed r x f))
      ]),
      measured r d,
    ),
    λ x. (
      (λ h. elim (explained r) [
        | inl (c, m) ↦ absurd (ok_err (sym (measured r c m) ∙ h))
        | inr (y, f) ↦ subst (IsFailure r) (err_same (sym (failed r y f) ∙ h)) f
      ]),
      failed r x,
    ),
  )

  -- `slipstream diff <left> <right> --json`
  abbrev pub diff_output : Text → Text → Text → Result Output Text
  diff_output bin left right = P.output bin (lit "diff" ∷ left ∷ right ∷ lit "--json" ∷ [])

  -- The analysis of a pair gives a delta exactly when `slipstream diff` could be launched and ended
  -- with success, and its output is the JSON of a report with that delta; it gives the error of a
  -- launch, of a command with its exit code and its error output, or of parsing, exactly when the
  -- launch failed, the command ended without success, or its output is not UTF-8 or no report.
  pub analyze_pair_causes :
      (bin left right : Text)
      → ((d : ContentionDelta)
          → analyze_pair from_str (subprocess_runner P bin) left right ≡ ok d
            ↔ IsMeasured (diff_output bin left right) d)
        × ((x : HarnessError)
            → analyze_pair from_str (subprocess_runner P bin) left right ≡ err x
              ↔ IsFailure (diff_output bin left right) x)
  unfolding analyze_pair subprocess_runner run answer
  analyze_pair_causes bin left right = answer_iff (diff_output bin left right)
