-- ===== src/Harness/Patterns/Sorting.antt =====
-- The sort of `discover_patterns` of harness/src/lib.rs: in order, complete and stable.
use slipstream_contracts.Common.{
  ℕ, ◌≡◌, refl, sym, ap, ◌∙◌, ◌↔◌, ◌⊎◌, inl, inr, subst, true, false, List, [], ◌∷◌, All, All-in,
  All-of, In, ◌==◌, ltb, if_of, if◌then◌else◌, arith, Bool-cases,
}
use slipstream_contracts.Harness.Text.{Text, text_eq, text_le}
use slipstream_contracts.Harness.Text.Equality.{text_eq→≡}
use slipstream_contracts.Harness.Patterns.{Pattern, insert_by_name, sort_by_name}

text_le-step :
    (a b : ℕ) (s t : Text) → text_le (a ∷ s) (b ∷ t) ≡ (if a == b then text_le s t else ltb a b)
unfolding text_le
text_le-step a b s t = refl

text_le_total : (s t : Text) → text_le s t ≡ false → text_le t s ≡ true
unfolding text_le
text_le_total [] t h = cc
text_le_total (a ∷ s) [] h = refl
text_le_total (a ∷ s) (b ∷ t) h = ground (arith, text_le_total s t)

text_le_trans : (s t u : Text) → text_le s t ≡ true → text_le t u ≡ true → text_le s u ≡ true
unfolding text_le
text_le_trans [] t u h k = refl
text_le_trans (a ∷ s) [] u h k = cc
text_le_trans (a ∷ s) (b ∷ t) [] h k = cc
text_le_trans (a ∷ s) (b ∷ t) (c ∷ u) h k = ground (arith, text_le_trans s t u)

abbrev pub Before : Pattern → Pattern → Type 0
Before p q = text_le p.name q.name ≡ true

-- Every pattern stands before all that follow it.
abbrev pub IsSorted : List Pattern → Type 0
IsSorted [] = Unit
IsSorted (p ∷ ps) = All (Before p) ps × IsSorted ps

In-insert : (r p : Pattern) (ps : List Pattern) → In r (insert_by_name p ps) → (r ≡ p) ⊎ In r ps
unfolding insert_by_name
In-insert r p [] m = m
In-insert r p (q ∷ ps) m =
    if_of (λ l. In r l → (r ≡ p) ⊎ In r (q ∷ ps)) (text_le p.name q.name) (λ _ m. m)
      (λ _ m. elim m [
        | inl e ↦ inr (inl e)
        | inr k ↦ elim (In-insert r p ps k) [ inl e ↦ inl e | inr n ↦ inr (inr n) ]
      ])
      m

insert-In : (r p : Pattern) (ps : List Pattern) → (r ≡ p) ⊎ In r ps → In r (insert_by_name p ps)
unfolding insert_by_name
insert-In r p [] m = m
insert-In r p (q ∷ ps) m =
    if_of (In r) (text_le p.name q.name) (λ _. m)
      (λ _. elim m [
        | inl e ↦ inr (insert-In r p ps (inl e))
        | inr (inl e) ↦ inl e
        | inr (inr n) ↦ inr (insert-In r p ps (inr n))
      ])

insert-IsSorted : (p : Pattern) (ps : List Pattern) → IsSorted ps → IsSorted (insert_by_name p ps)
unfolding insert_by_name
insert-IsSorted p [] h = (tt, tt)
insert-IsSorted p (q ∷ ps) h =
    if_of IsSorted (text_le p.name q.name)
      (λ e. (
        (e, All-of (Before p) ps λ r m. text_le_trans _ _ r.name e (All-in (Before q) ps h.0 m)),
        h,
      ))
      (λ e. (
        All-of (Before q) (insert_by_name p ps) λ r m. elim (In-insert r p ps m) [
          | inl same ↦ subst (Before q) (sym same) (text_le_total p.name q.name e)
          | inr n ↦ All-in (Before q) ps h.0 n
        ],
        insert-IsSorted p ps h.1,
      ))

pub sort-IsSorted : (ps : List Pattern) → IsSorted (sort_by_name ps)
unfolding sort_by_name
sort-IsSorted [] = tt
sort-IsSorted (p ∷ ps) = insert-IsSorted p (sort_by_name ps) (sort-IsSorted ps)

pub In-sort : (r : Pattern) (ps : List Pattern) → In r (sort_by_name ps) ↔ In r ps
unfolding sort_by_name
In-sort r [] = ((λ m. m), (λ m. m))
In-sort r (p ∷ ps) =
    let rest = In-sort r ps in
    (
      (λ m. elim (In-insert r p (sort_by_name ps) m) [ inl e ↦ inl e | inr n ↦ inr (rest.0 n) ]),
      (λ m. insert-In r p (sort_by_name ps) (elim m [ inl e ↦ inl e | inr n ↦ inr (rest.1 n) ])),
    )

-- The patterns with this name, in their order.
abbrev pub with_name : Text → List Pattern → List Pattern
with_name name [] = []
with_name name (p ∷ ps) =
    let rest = with_name name ps in if text_eq p.name name then p ∷ rest else rest

text_le_self : (s : Text) → text_le s s ≡ true
unfolding text_le
text_le_self [] = refl
text_le_self (a ∷ s) = ground (arith, text_le_self s)

swapped :
    (name : Text) (p q : Pattern) (ps : List Pattern)
    → text_le p.name q.name ≡ false
    → with_name name (q ∷ p ∷ ps) ≡ with_name name (p ∷ q ∷ ps)
swapped name p q ps h = elim (Bool-cases (text_eq p.name name)) [
  | inr e ↦ rw e refl
  | inl e ↦ elim (Bool-cases (text_eq q.name name)) [
    | inr d ↦ rw d refl
    | inl d ↦
        let same : p.name ≡ q.name = text_eq→≡ p.name name e ∙ sym (text_eq→≡ q.name name d) in
        let le = text_le_self q.name in cc (h, same, le)
  ]
]

insert-with_name :
    (name : Text) (p : Pattern) (ps : List Pattern)
    → with_name name (insert_by_name p ps) ≡ with_name name (p ∷ ps)
unfolding insert_by_name
insert-with_name name p [] = refl
insert-with_name name p (q ∷ ps) =
    if_of (λ l. with_name name l ≡ with_name name (p ∷ q ∷ ps)) (text_le p.name q.name) (λ _. refl)
      (λ e.
        ap (λ l. if text_eq q.name name then q ∷ l else l) (insert-with_name name p ps)
        ∙ swapped name p q ps e)

-- Patterns with one name keep their order.
pub sort-with_name :
    (name : Text) (ps : List Pattern) → with_name name (sort_by_name ps) ≡ with_name name ps
unfolding sort_by_name
sort-with_name name [] = refl
sort-with_name name (p ∷ ps) =
    insert-with_name name p (sort_by_name ps)
    ∙ ap (λ l. if text_eq p.name name then p ∷ l else l) (sort-with_name name ps)
