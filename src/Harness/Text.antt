-- ===== src/Harness/Text.antt =====
-- Rust's `String`, `&str` and paths as their bytes, and the operations of the standard library
-- that the harness uses on them.
pub mod Equality
pub mod Digits
use Prim.Native.Char.{code}
use Prim.Native.String.{String}
use slipstream_contracts.Common.{
  ℕ, zero, suc, ◌+◌, ◌/◌, ◌%◌, Bool, true, false, ◌&&◌, List, [], ◌∷◌, ◌++◌, ltb, ◌==◌,
  if◌then◌else◌,
}
use slipstream_contracts.Common.Int.{ℤ, pos, negsuc}

abbrev pub Text : Type 0
Text = List ℕ

-- The bytes of an ASCII literal.
abbrev pub lit : String → Text
lit String.[] = []
lit (String.◌∷◌ c s) = code c ∷ lit s

unfoldable pub text_eq : Text → Text → Bool
text_eq [] [] = true
text_eq [] (_ ∷ _) = false
text_eq (_ ∷ _) [] = false
text_eq (a ∷ s) (b ∷ t) = a == b && text_eq s t

-- The byte stands nowhere in the text.
unfoldable pub lacks : ℕ → Text → Bool
lacks c [] = true
lacks c (b ∷ s) = if c == b then false else lacks c s

-- `a.cmp(b)` is not `Greater`: the bytes in dictionary order.
unfoldable pub text_le : Text → Text → Bool
text_le [] t = true
text_le (a ∷ s) [] = false
text_le (a ∷ s) (b ∷ t) = let rest = text_le s t in if a == b then rest else ltb a b

-- `parts.join(sep)`
unfoldable pub join : Text → List Text → Text
join sep [] = []
join sep (s ∷ []) = s
join sep (s ∷ t ∷ ts) = s ++ sep ++ join sep (t ∷ ts)

-- `dir.join(name)` for a relative `name`.
unfoldable pub ends_with_byte : ℕ → Text → Bool
ends_with_byte b [] = false
ends_with_byte b (c ∷ []) = c == b
ends_with_byte b (c ∷ d ∷ s) = ends_with_byte b (d ∷ s)

unfoldable pub join_path : Text → Text → Text
unfolding ends_with_byte
join_path [] name = name
join_path (c ∷ dir) name =
    if ends_with_byte b'/' (c ∷ dir) then (c ∷ dir) ++ name else (c ∷ dir) ++ b'/' ∷ name

-- The decimal digits of `n` in front of `acc`; the fuel `n + 1` is enough.
unfoldable pub digits : ℕ → ℕ → Text → Text
digits zero n acc = acc
digits (suc fuel) n acc =
    let rest = digits fuel (n / 10) ((b'0' + n % 10) ∷ acc) in
    if ltb n 10 then (b'0' + n) ∷ acc else rest

unfoldable pub show_nat : ℕ → Text
unfolding digits
show_nat n = digits (suc n) n []

-- `n.to_string()` of an `i64`.
unfoldable pub show_int : ℤ → Text
unfolding show_nat
show_int (pos n) = show_nat n
show_int (negsuc n) = b'-' ∷ show_nat (suc n)
