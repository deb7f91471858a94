-- ===== src/Common/Sums.antt =====
-- The sum of a quantity over a list of accounts, and how it moves when one account changes.
use slipstream_contracts.Common.{
  ◌≡◌, refl, sym, ◌≢◌, inl, inr, List, [], ◌∷◌, In, NotIn, NotIn-In, Distinct,
}
use slipstream_contracts.Common.Int.{ℤ, pos, ◌+ℤ◌, ◌≤ℤ◌, int_laws, parts_of_eq}

module _ {A : Type 0} where
  abbrev pub sum_of : List A → (A → ℤ) → ℤ
  sum_of [] f = pos 0
  sum_of (a ∷ xs) f = f a +ℤ sum_of xs f

  sum_of-other :
      (xs : List A) (f g : A → ℤ) (a : A)
      → ((b : A) → b ≢ a → g b ≡ f b)
      → NotIn a xs
      → sum_of xs g ≡ sum_of xs f
  sum_of-other [] f g a same h = refl
  sum_of-other (b ∷ xs) f g a same h =
      rw (same b (λ e. h.0 (sym e)), sum_of-other xs f g a same h.1)

  -- If `g` is `f` but at `a`, the sums differ by what `a` has changed by.
  pub sum_of-change :
      (xs : List A) (f g : A → ℤ) (a : A)
      → ((b : A) → b ≢ a → g b ≡ f b)
      → Distinct xs
      → In a xs
      → sum_of xs g +ℤ f a ≡ sum_of xs f +ℤ g a
  sum_of-change [] f g a same d i = absurd i
  sum_of-change (b ∷ xs) f g a same d (inl e) =
      rw (e, sum_of-other xs f g b (λ c n. same c (λ k. n (rw e at k))) d.0) (omega int_laws)
  sum_of-change (b ∷ xs) f g a same d (inr i) =
      rw (same b (λ e. NotIn-In xs b d.0 (rw e i)))
        (omega (int_laws, parts_of_eq (sum_of-change xs f g a same d.1 i)))

  pub sum_of_nonneg : (xs : List A) (f : A → ℤ) → ((a : A) → pos 0 ≤ℤ f a) → pos 0 ≤ℤ sum_of xs f
  sum_of_nonneg [] f h = omega int_laws
  sum_of_nonneg (a ∷ xs) f h = omega (int_laws, h a, sum_of_nonneg xs f h)

  -- One account holds no more than all together, where none is below zero.
  pub le-sum_of :
      (xs : List A) (f : A → ℤ) (a : A) → ((b : A) → pos 0 ≤ℤ f b) → In a xs → f a ≤ℤ sum_of xs f
  le-sum_of [] f a h i = absurd i
  le-sum_of (b ∷ xs) f a h (inl e) = rw e (omega (int_laws, sum_of_nonneg xs f h))
  le-sum_of (b ∷ xs) f a h (inr i) = omega (int_laws, h b, le-sum_of xs f a h i)
