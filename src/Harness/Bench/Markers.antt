-- ===== src/Harness/Bench/Markers.antt =====
-- Where a marker is found, for `update_bench_md` of harness/src/lib.rs.
use slipstream_contracts.Common.{
  ℕ, zero, suc, ◌≡◌, refl, sym, ap, ◌∙◌, ◌≢◌, inl, inr, true, false, ◌&&◌, Option, none, some, [],
  ◌∷◌, ◌++◌, length, NotIn, ◌==◌, eq_self, ne→eq, Bool-cases, if◌then◌else◌,
}
use slipstream_contracts.Harness.Text.{Text}
use slipstream_contracts.Harness.Bench.{starts_with, later, find, take, drop}

starts_with_self : (n u : Text) → starts_with n (n ++ u) ≡ true
unfolding starts_with
starts_with_self [] u = refl
starts_with_self (a ∷ n) u =
    ap (λ r. r && starts_with n (n ++ u)) (eq_self a) ∙ starts_with_self n u

starts_with-stop : (c : ℕ) (n t u : Text) → NotIn c n → starts_with n (t ++ c ∷ u) ≡ starts_with n t
unfolding starts_with
starts_with-stop c [] t u h = refl
starts_with-stop c (a ∷ n) [] u h = ap (λ r. r && starts_with n u) (ne→eq a c λ e. h.0 (sym e))
starts_with-stop c (a ∷ n) (b ∷ t) u h = ap (λ r. a == b && r) (starts_with-stop c n t u h.1)

find-hit : (n s : Text) → starts_with n s ≡ true → find n s ≡ some 0
unfolding find
find-hit n [] h = ap (λ r. if r then some 0 else none) h
find-hit n (b ∷ s) h = ap (λ r. if r then some 0 else later (find n s)) h

find-miss :
    (n : Text) (b : ℕ) (s : Text)
    → starts_with n (b ∷ s) ≡ false
    → find n (b ∷ s) ≡ later (find n s)
unfolding find
find-miss n b s h = ap (λ r. if r then some 0 else later (find n s)) h

later-none : (o : Option ℕ) → later o ≡ none → o ≡ none
later-none none h = refl
later-none (some i) h = cc

find-none :
    (n : Text) (b : ℕ) (s : Text)
    → find n (b ∷ s) ≡ none
    → (starts_with n (b ∷ s) ≡ false) × (find n s ≡ none)
find-none n b s h = elim (Bool-cases (starts_with n (b ∷ s))) [
  | inl e ↦ absurd (some_none (sym (find-hit n (b ∷ s) e) ∙ h))
  | inr e ↦ (e, later-none _ (sym (find-miss n b s e) ∙ h))
]
  where
    some_none : {i : ℕ} → some i ≡ none → ⊥
    some_none e = cc

-- A match, `k` bytes later.
abbrev pub shift : ℕ → Option ℕ → Option ℕ
shift zero o = o
shift (suc k) o = later (shift k o)

pub shift-none : (k : ℕ) → shift k none ≡ none
shift-none zero = refl
shift-none (suc k) = ap later (shift-none k)

pub shift-some : (k : ℕ) → shift k (some 0) ≡ some k
shift-some zero = refl
shift-some (suc k) = ap later (shift-some k)

starts_with-miss :
    (a c b : ℕ) (n t u : Text)
    → NotIn c n
    → starts_with (a ∷ n) (b ∷ t) ≡ false
    → starts_with (a ∷ n) (b ∷ t ++ c ∷ u) ≡ false
unfolding starts_with
starts_with-miss a c b n t u h e = ap (λ r. a == b && r) (starts_with-stop c n t u h) ∙ e

starts_with-head : (a b : ℕ) (n t : Text) → a ≢ b → starts_with (a ∷ n) (b ∷ t) ≡ false
unfolding starts_with
starts_with-head a b n t h = ap (λ r. r && starts_with n t) (ne→eq a b h)

-- A byte that the rest of the marker `a ∷ n` does not have ends the search in the text before it.
pub find-append :
    (a c : ℕ) (n t u : Text)
    → NotIn c n
    → find (a ∷ n) t ≡ none
    → find (a ∷ n) (t ++ c ∷ u) ≡ shift (length t) (find (a ∷ n) (c ∷ u))
find-append a c n [] u h k = refl
find-append a c n (b ∷ t) u h k =
    let miss = find-none (a ∷ n) b t k in
    find-miss (a ∷ n) b (t ++ c ∷ u) (starts_with-miss a c b n t u h miss.0)
    ∙ ap later (find-append a c n t u h miss.1)

pub find_self : (n u : Text) → find n (n ++ u) ≡ some 0
find_self n u = find-hit n (n ++ u) (starts_with_self n u)

-- A text without the byte `a` has no match of a marker that begins with it.
pub find-clean : (a : ℕ) (n t : Text) → NotIn a t → find (a ∷ n) t ≡ none
unfolding find starts_with
find-clean a n [] h = refl
find-clean a n (b ∷ t) h =
    find-miss (a ∷ n) b t (starts_with-head a b n t h.0) ∙ ap later (find-clean a n t h.1)

pub take-append : (s t : Text) → take (length s) (s ++ t) ≡ s
take-append [] [] = refl
take-append [] (b ∷ t) = refl
take-append (b ∷ s) t = ap (λ r. b ∷ r) (take-append s t)

pub drop-append : (s t : Text) → drop (length s) (s ++ t) ≡ t
drop-append [] t = refl
drop-append (b ∷ s) t = drop-append s t
