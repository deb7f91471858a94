-- ===== src/Harness/Text/Equality.antt =====
-- The test for equal texts.
use slipstream_contracts.Common.{
  ◌≡◌, refl, ap, ◌∙◌, true, ◌&&◌, [], ◌∷◌, ◌==◌, eq_self, eq→≡, and_parts,
}
use slipstream_contracts.Harness.Text.{Text, text_eq}

pub text_eq_self : (t : Text) → text_eq t t ≡ true
unfolding text_eq
text_eq_self [] = refl
text_eq_self (a ∷ t) = ap (λ r. r && text_eq t t) (eq_self a) ∙ text_eq_self t

pub text_eq→≡ : (s t : Text) → text_eq s t ≡ true → s ≡ t
unfolding text_eq
text_eq→≡ [] [] h = refl
text_eq→≡ [] (b ∷ t) h = cc
text_eq→≡ (a ∷ s) [] h = cc
text_eq→≡ (a ∷ s) (b ∷ t) h =
    let parts = and_parts (a == b) (text_eq s t) h in
    ap (λ c. c ∷ s) (eq→≡ a b parts.0) ∙ ap (λ r. b ∷ r) (text_eq→≡ s t parts.1)
