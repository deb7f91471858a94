-- ===== src/Common/Lists.antt =====
-- Lists measured and indexed by native numbers, and membership by recursion.
use Prim.Native.Nat.{ℕ, zero, suc, ◌+◌, ◌<◌, ◌≤◌}
use mathlib.Core.Path.{◌≡◌, refl, sym, ap, ◌∙◌}
use mathlib.Core.Logic.{◌≢◌, ◌⊎◌, inl, inr}
use mathlib.Core.List.{List, [], ◌∷◌, ◌++◌, map, map-append}
use mathlib.Core.Option.{Option, none, some}
use native.Mathlib.Omega.{arith}

-- `Option::unwrap_or`
abbrev pub unwrap_or {ℓ} : {A : Type ℓ} → Option A → A → A
unwrap_or none d = d
unwrap_or (some a) d = a

-- A predicate holds of every item.
abbrev pub All {ℓ κ} : {A : Type ℓ} → (A → Type κ) → List A → Type κ
All P [] = Unit
All P (x ∷ xs) = P x × All P xs

module _ {ℓ} {A : Type ℓ} where
  abbrev pub length : List A → ℕ
  length [] = 0
  length (x ∷ xs) = suc (length xs)

  abbrev pub get_elem? : List A → ℕ → Option A
  get_elem? [] i = none
  get_elem? (x ∷ xs) zero = some x
  get_elem? (x ∷ xs) (suc i) = get_elem? xs i

module _ {A : Type 0} where
  -- The item is in the list, with its place.
  abbrev pub In : A → List A → Type 0
  In a [] = ⊥
  In a (x ∷ xs) = (a ≡ x) ⊎ In a xs

  abbrev pub NotIn : A → List A → Type 0
  NotIn a = All (λ x. a ≢ x)

  -- No item of one list is in the other.
  abbrev pub Disjoint : List A → List A → Type 0
  Disjoint xs ys = All (λ x. NotIn x ys) xs

  -- No item is listed twice.
  abbrev pub Distinct : List A → Type 0
  Distinct [] = Unit
  Distinct (x ∷ xs) = NotIn x xs × Distinct xs

module _ {ℓ} {A : Type ℓ} where
  pub length-append : (xs ys : List A) → length (xs ++ ys) ≡ length xs + length ys
  length-append [] ys = omega arith
  length-append (x ∷ xs) ys = omega (arith, length-append xs ys)

  pub get_elem?-append_left :
      (xs ys : List A) (i : ℕ) → i < length xs → get_elem? (xs ++ ys) i ≡ get_elem? xs i
  get_elem?-append_left [] ys i h = elim h [ ]
  get_elem?-append_left (x ∷ xs) ys zero h = refl
  get_elem?-append_left (x ∷ xs) ys (suc i) h = get_elem?-append_left xs ys i (omega arith)

  pub get_elem?-none : (xs : List A) (i : ℕ) → length xs ≤ i → get_elem? xs i ≡ none
  get_elem?-none [] i h = refl
  get_elem?-none (x ∷ xs) zero h = absurd (omega arith)
  get_elem?-none (x ∷ xs) (suc i) h = get_elem?-none xs i (omega arith)

  pub get_elem?-append_end : (xs : List A) (x : A) → get_elem? (xs ++ x ∷ []) (length xs) ≡ some x
  get_elem?-append_end [] x = refl
  get_elem?-append_end (y ∷ xs) x = get_elem?-append_end xs x

module _ {A : Type 0} where
  pub NotIn-In : (xs : List A) (a : A) → NotIn a xs → In a xs → ⊥
  NotIn-In [] a h m = m
  NotIn-In (x ∷ xs) a h (inl e) = h.0 e
  NotIn-In (x ∷ xs) a h (inr m) = NotIn-In xs a h.1 m

  -- Membership is decided where equality is.
  pub In-or_not : Discrete A → (xs : List A) (a : A) → In a xs ⊎ NotIn a xs
  In-or_not eq [] a = inr tt
  In-or_not eq (x ∷ xs) a = elim (eq a x) [
    | yes e ↦ inl (inl e)
    | no n ↦ elim (In-or_not eq xs a) [ inl m ↦ inl (inr m) | inr h ↦ inr (n, h) ]
  ]

  pub In-append_left : (xs ys : List A) (a : A) → In a xs → In a (xs ++ ys)
  In-append_left [] ys a m = absurd m
  In-append_left (x ∷ xs) ys a (inl e) = inl e
  In-append_left (x ∷ xs) ys a (inr m) = inr (In-append_left xs ys a m)

  pub In-append_right : (xs ys : List A) (a : A) → In a ys → In a (xs ++ ys)
  In-append_right [] ys a m = m
  In-append_right (x ∷ xs) ys a m = inr (In-append_right xs ys a m)

module _ {κ} {A : Type 0} where
  pub All-in : (P : A → Type κ) (xs : List A) {a : A} → All P xs → In a xs → P a
  All-in P [] h m = absurd m
  All-in P (x ∷ xs) h (inl e) = rw e h.0
  All-in P (x ∷ xs) h (inr m) = All-in P xs h.1 m

  pub All-of : (P : A → Type κ) (xs : List A) → ((a : A) → In a xs → P a) → All P xs
  All-of P [] h = tt
  All-of P (x ∷ xs) h = (h x (inl refl), All-of P xs (λ a m. h a (inr m)))

  pub All-append_left : (P : A → Type κ) (xs ys : List A) → All P (xs ++ ys) → All P xs
  All-append_left P [] ys h = tt
  All-append_left P (x ∷ xs) ys h = (h.0, All-append_left P xs ys h.1)

  pub All-append_right : (P : A → Type κ) (xs ys : List A) → All P (xs ++ ys) → All P ys
  All-append_right P [] ys h = h
  All-append_right P (x ∷ xs) ys h = All-append_right P xs ys h.1

  pub All-append : (P : A → Type κ) (xs ys : List A) → All P xs → All P ys → All P (xs ++ ys)
  All-append P [] ys h k = k
  All-append P (x ∷ xs) ys h k = (h.0, All-append P xs ys h.1 k)

module _ {A B : Type 0} (P : B → Type 0) (f : A → B) where
  pub All-map : (xs : List A) → All (λ x. P (f x)) xs → All P (map f xs)
  All-map [] h = tt
  All-map (x ∷ xs) h = (h.0, All-map xs h.1)

  pub map-All : (xs : List A) → All P (map f xs) → All (λ x. P (f x)) xs
  map-All [] h = tt
  map-All (x ∷ xs) h = (h.0, map-All xs h.1)

pub All-All : {A : Type 0} {P : A → Type 0} (xs : List A) → ((a : A) → P a) → All P xs
All-All [] h = tt
All-All (x ∷ xs) h = (h x, All-All xs h)

-- Disjointness read from the other side.
pub Disjoint-sym : {A : Type 0} (xs ys : List A) → Disjoint xs ys → Disjoint ys xs
Disjoint-sym xs ys h =
    All-of _ ys λ y my. All-of _ xs λ x mx e. All-in _ ys (All-in _ xs h mx) my (sym e)

-- Disjointness from two lists, and from each of them.
pub Disjoint-append :
    {A : Type 0} (xs ys zs : List A) → Disjoint xs ys → Disjoint xs zs → Disjoint xs (ys ++ zs)
Disjoint-append [] ys zs h k = tt
Disjoint-append (x ∷ xs) ys zs h k = (All-append _ ys zs h.0 k.0, Disjoint-append xs ys zs h.1 k.1)

pub Disjoint-append_left :
    {A : Type 0} (xs ys zs : List A) → Disjoint xs (ys ++ zs) → Disjoint xs ys
Disjoint-append_left [] ys zs h = tt
Disjoint-append_left (x ∷ xs) ys zs h =
    (All-append_left _ ys zs h.0, Disjoint-append_left xs ys zs h.1)

pub Disjoint-append_right :
    {A : Type 0} (xs ys zs : List A) → Disjoint xs (ys ++ zs) → Disjoint xs zs
Disjoint-append_right [] ys zs h = tt
Disjoint-append_right (x ∷ xs) ys zs h =
    (All-append_right _ ys zs h.0, Disjoint-append_right xs ys zs h.1)

module _ {A I : Type 0} (keys : I → List A) where
  -- The lists of no two items share an entry.
  abbrev pub Apart : List I → Type 0
  Apart [] = Unit
  Apart (i ∷ is) = All (λ j. Disjoint (keys i) (keys j)) is × Apart is

  pub Apart-Distinct :
      ((i j : I) → i ≢ j → Disjoint (keys i) (keys j)) → (is : List I) → Distinct is → Apart is
  Apart-Distinct apart [] h = tt
  Apart-Distinct apart (i ∷ is) h =
      (All-of _ is (λ j m. apart i j (All-in _ is h.0 m)), Apart-Distinct apart is h.1)

  pub Apart-by :
      {B : Type 0} (f : I → B)
      → ((i j : I) → f i ≢ f j → Disjoint (keys i) (keys j))
      → (is : List I) → Distinct (map f is)
      → Apart is
  Apart-by f apart [] h = tt
  Apart-by f apart (i ∷ is) h = (
    All-of _ is (λ j m. apart i j (All-in _ is (map-All (λ b. f i ≢ b) f is h.0) m)),
    Apart-by f apart is h.1,
  )

module _ {A B : Type 0} (f : A → B) (injective : (a b : A) → a ≢ b → f a ≢ f b) where
  pub Disjoint-map : (xs ys : List A) → Disjoint xs ys → Disjoint (map f xs) (map f ys)
  Disjoint-map xs ys h = All-map _ f xs (
      All-of _ xs
        λ x m. All-map _ f ys (All-of _ ys λ y n. injective x y (All-in _ ys (All-in _ xs h m) n)))

  pub Apart-map :
      {I : Type 0} (keys : I → List A) (is : List I)
      → Apart keys is
      → Apart (λ i. map f (keys i)) is
  Apart-map keys [] h = tt
  Apart-map keys (i ∷ is) h = (
    All-of _ is (λ j m. Disjoint-map (keys i) (keys j) (All-in _ is h.0 m)),
    Apart-map keys is h.1,
  )

-- The items of a list of lists, in their order.
abbrev pub flattened : {A : Type 0} → List (List A) → List A
flattened [] = []
flattened (xs ∷ xss) = xs ++ flattened xss

pub flattened-map :
    {A B : Type 0} (f : A → B) (xss : List (List A))
    → flattened (map (map f) xss) ≡ map f (flattened xss)
flattened-map f [] = refl
flattened-map f (xs ∷ xss) =
    ap (λ l. map f xs ++ l) (flattened-map f xss) ∙ sym (map-append f xs (flattened xss))

pub All-flattened :
    {A : Type 0} (P : A → Type 0) (xss : List (List A)) → All (All P) xss → All P (flattened xss)
All-flattened P [] h = tt
All-flattened P (xs ∷ xss) h = All-append P xs (flattened xss) h.0 (All-flattened P xss h.1)
