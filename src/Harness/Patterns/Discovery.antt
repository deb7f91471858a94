-- ===== src/Harness/Patterns/Discovery.antt =====
-- What `discover_patterns` of harness/src/lib.rs finds, and in which order.
use mathlib.Core.List.{filter_map}
use mathlib.Core.Option
use slipstream_contracts.Common.{
  ◌≡◌, refl, sym, ap, ◌∙◌, ◌&&◌, Bool-cases, Option-cases, ◌↔◌, ◌⊎◌, inl, inr, subst, Bool, true,
  false, Option, none, some, unwrap_or, List, [], ◌∷◌, In, if_of, if◌then◌else◌,
}
use slipstream_contracts.Harness.Text.{Text}
use slipstream_contracts.Harness.Patterns.Sorting.{
  IsSorted, sort-IsSorted, In-sort, with_name, sort-with_name,
}
use slipstream_contracts.Harness.Patterns.{
  Pattern, DirEntry, FileSystem, is_pattern_name, pattern_at, named, collect, discovered,
  discover_patterns,
}

-- A directory with a valid name of two digits and a dash, and its pattern.
abbrev pub IsPatternOf : FileSystem → Text → Bool → Option Text → Pattern → Type 0
IsPatternOf fs path is_dir file_name p =
    (name : Text) × (is_dir ≡ true)
    × (file_name ≡ some name)
    × (is_pattern_name name ≡ true)
    × (p ≡ pattern_at fs path name)

-- The pattern of a readable entry.
abbrev pub IsListed : FileSystem → List (Option DirEntry) → Pattern → Type 0
IsListed fs entries p =
    (entry : DirEntry) × In (some entry) entries
    × IsPatternOf fs entry.path (fs.is_dir entry.path) entry.file_name p

-- The pattern of an entry: of a directory whose name is valid, with two digits and a dash.
abbrev pub pattern_name : FileSystem → Text → Option Text → Option Text
pattern_name fs path none = none
pattern_name fs path (some name) =
    if fs.is_dir path && is_pattern_name name then some name else none

abbrev pub pattern_of : FileSystem → Option DirEntry → Option Pattern
pattern_of fs none = none
pattern_of fs (some e) = Option.map (pattern_at fs e.path) (pattern_name fs e.path e.file_name)

some-none : {e : DirEntry} → some e ≡ none → ⊥
some-none h = cc

some_same : (d e : DirEntry) → some d ≡ some e → d ≡ e
some_same d e h = cc

module _ (fs : FileSystem) where
  In-named :
      (path : Text) (is_dir : Bool) (file_name : Option Text) (rest : List Pattern) (p : Pattern)
      → In p (if is_dir then named fs path file_name rest else rest)
      → IsPatternOf fs path is_dir file_name p ⊎ In p rest
  In-named path false file_name rest p m = inr m
  In-named path true none rest p m = inr m
  In-named path true (some name) rest p m =
      if_of (λ l. In p l → IsPatternOf fs path true (some name) p ⊎ In p rest)
        (is_pattern_name name)
        (λ h m. elim m [ inl e ↦ inl (name, refl, refl, h, e) | inr n ↦ inr n ]) (λ _ m. inr m) m

  named-In :
      (path : Text) (is_dir : Bool) (file_name : Option Text) (rest : List Pattern) (p : Pattern)
      → IsPatternOf fs path is_dir file_name p ⊎ In p rest
      → In p (if is_dir then named fs path file_name rest else rest)
  named-In path is_dir file_name rest p (inl (name, d, f, h, e)) =
      subst (λ b. In p (if b then named fs path file_name rest else rest)) (sym d)
        (subst (λ o. In p (named fs path o rest)) (sym f)
          (subst (λ b. In p (if b then pattern_at fs path name ∷ rest else rest)) (sym h) (inl e)))
  named-In path false file_name rest p (inr m) = m
  named-In path true none rest p (inr m) = m
  named-In path true (some name) rest p (inr m) =
      if_of (In p) (is_pattern_name name) (λ _. inr m) (λ _. m)

  collect-IsListed :
      (entries : List (Option DirEntry)) (p : Pattern)
      → In p (collect fs entries) ↔ IsListed fs entries p
  unfolding collect
  collect-IsListed [] p = ((λ m. absurd m), (λ m. absurd m.1))
  collect-IsListed (none ∷ entries) p =
      let rest = collect-IsListed entries p in
      (
        (λ m. let l = rest.0 m in (l.0, inr l.1, l.2)),
        (λ l. rest.1 (l.0, elim l.1 [ inl e ↦ absurd (some-none e) | inr m ↦ m ], l.2)),
      )
  collect-IsListed (some e ∷ entries) p =
      let rest = collect-IsListed entries p in
      (
        (λ m. elim (In-named e.path (fs.is_dir e.path) e.file_name (collect fs entries) p m) [
          | inl h ↦ (e, inl refl, h)
          | inr n ↦ let l = rest.0 n in (l.0, inr l.1, l.2)
        ]),
        (λ l. named-In e.path (fs.is_dir e.path) e.file_name (collect fs entries) p (elim l.1 [
          | inl same ↦ inl (
              subst (λ d. IsPatternOf fs d.path (fs.is_dir d.path) d.file_name p)
                (some_same l.0 e same) l.2)
          | inr m ↦ inr (rest.1 (l.0, m, l.2))
        ])),
      )

  -- The loop pushes the pattern of each entry once, in the order of the entries.
  keep : Option Pattern → List Pattern → List Pattern
  keep none rest = rest
  keep (some p) rest = p ∷ rest

  push-one :
      (path : Text) (file_name : Option Text) (rest : List Pattern)
      → (if fs.is_dir path then named fs path file_name rest else rest)
        ≡ keep (Option.map (pattern_at fs path) (pattern_name fs path file_name)) rest
  unfolding keep
  push-one path none rest = if_of (λ l. l ≡ rest) (fs.is_dir path) (λ _. refl) (λ _. refl)
  push-one path (some name) rest = elim (Bool-cases (fs.is_dir path)) [
    | inr d ↦ rw d refl
    | inl d ↦ elim (Bool-cases (is_pattern_name name)) [
      | inr e ↦ rw d (rw e refl)
      | inl e ↦ rw d (rw e refl)
    ]
  ]

  keep-filter_map :
      (o : Option DirEntry) (entries : List (Option DirEntry))
      → keep (pattern_of fs o) (filter_map (pattern_of fs) entries)
        ≡ filter_map (pattern_of fs) (o ∷ entries)
  unfolding keep filter_map
  keep-filter_map o entries = elim (Option-cases (pattern_of fs o)) [
    | inl e ↦ rw e refl
    | inr (p, e) ↦ rw e refl
  ]

  collect-filter_map :
      (entries : List (Option DirEntry)) → collect fs entries ≡ filter_map (pattern_of fs) entries
  unfolding collect filter_map
  collect-filter_map [] = refl
  collect-filter_map (none ∷ entries) = collect-filter_map entries
  collect-filter_map (some e ∷ entries) =
      push-one e.path e.file_name (collect fs entries)
      ∙ ap (keep (pattern_of fs (some e))) (collect-filter_map entries)
      ∙ keep-filter_map (some e) entries

  -- Where the directory can be read, discovery holds just the patterns of its readable entries that
  -- are directories with a name of two digits and a dash, each with the sides that are directories;
  -- it orders them by name. Of each name it has one pattern for each such entry, in the order in which
  -- the directory lists them. Where the directory
  -- cannot be read, discovery gives none.
  pub discover_patterns_lem :
      (dir : Text)
      → IsSorted (discover_patterns fs dir)
        × ((p : Pattern)
            → In p (discover_patterns fs dir) ↔ IsListed fs (unwrap_or (fs.read_dir dir) []) p)
        × ((name : Text)
            → with_name name (discover_patterns fs dir)
              ≡ with_name name (filter_map (pattern_of fs) (unwrap_or (fs.read_dir dir) [])))
  unfolding discover_patterns collect filter_map
  discover_patterns_lem dir = of (fs.read_dir dir)
    where
      of :
          (o : Option (List (Option DirEntry)))
          → IsSorted (discovered fs o)
            × ((p : Pattern) → In p (discovered fs o) ↔ IsListed fs (unwrap_or o []) p)
            × ((name : Text)
                → with_name name (discovered fs o)
                  ≡ with_name name (filter_map (pattern_of fs) (unwrap_or o [])))
      of none = (tt, λ p. ((λ m. absurd m), (λ m. absurd m.1)), λ name. refl)
      of (some entries) = (
        sort-IsSorted (collect fs entries),
        λ p.
            let s = In-sort p (collect fs entries) in
            let c = collect-IsListed entries p in ((λ m. c.0 (s.0 m)), (λ l. s.1 (c.1 l))),
        λ name.
            sort-with_name name (collect fs entries)
            ∙ ap (with_name name) (collect-filter_map entries),
      )
