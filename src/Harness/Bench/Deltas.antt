-- ===== src/Harness/Bench/Deltas.antt =====
-- `signed_delta` of harness/src/lib.rs, read back.
use slipstream_contracts.Common.{
  ℕ, zero, suc, ◌+◌, ◌-◌, ◌*◌, ◌/◌, ◌%◌, ◌<◌, ◌≤◌, false, ◌≡◌, refl, ap, ◌∙◌, [], ◌∷◌, ◌==◌, ltb,
  lt→ltb, le→ltb, if_of, if◌then◌else◌, arith,
}
use slipstream_contracts.Common.Int.{ℤ, pos, negsuc}
use slipstream_contracts.Harness.Text.{Text, digits, show_nat, show_int}
use slipstream_contracts.Harness.Bench.{signed_delta}

-- The number that decimal digits write, after the digits of `n`.
unfoldable pub decimal : ℕ → Text → ℕ
decimal n [] = n
decimal n (b ∷ s) = decimal (n * 10 + (b - b'0')) s

abbrev pub negated : ℕ → ℤ
negated zero = pos 0
negated (suc k) = negsuc k

-- The number of a text with or without a sign.
unfoldable pub read_delta : Text → ℤ
unfolding decimal
read_delta [] = pos 0
read_delta (b ∷ s) =
    if b == b'+'
    then pos (decimal 0 s)
    else (if b == b'-' then negated (decimal 0 s) else pos (decimal 0 (b ∷ s)))

large : (n : ℕ) → ltb n 10 ≡ false → 10 ≤ n
large n h = ground arith

decimal-digits :
    (fuel n : ℕ) (acc : Text) → n < fuel → decimal 0 (digits fuel n acc) ≡ decimal n acc
unfolding decimal digits
decimal-digits zero n acc h = absurd (omega arith)
decimal-digits (suc fuel) n acc h =
    if_of (λ t. decimal 0 t ≡ decimal n acc) (ltb n 10) (λ _. ap (λ m. decimal m acc) (omega arith))
      (λ e.
        decimal-digits fuel (n / 10) ((b'0' + n % 10) ∷ acc) (omega (arith, large n e, h))
        ∙ ap (λ m. decimal m acc) (omega arith))

decimal-show_nat : (n : ℕ) → decimal 0 (show_nat n) ≡ n
unfolding show_nat decimal
decimal-show_nat n = decimal-digits (suc n) n [] (omega arith)

signed_delta-pos : (n : ℕ) → signed_delta (pos (suc n)) ≡ b'+' ∷ show_nat (suc n)
unfolding signed_delta show_int
signed_delta-pos n =
    ap (λ t. if t then b'+' ∷ show_nat (suc n) else show_nat (suc n))
      (lt→ltb 0 (suc n + 0) (omega arith))

signed_delta-negsuc : (n : ℕ) → signed_delta (negsuc n) ≡ b'-' ∷ show_nat (suc n)
unfolding signed_delta show_int
signed_delta-negsuc n =
    ap (λ t. if t then b'+' ∷ b'-' ∷ show_nat (suc n) else b'-' ∷ show_nat (suc n))
      (le→ltb (0 + suc n) 0 (omega arith))

read_delta-zero : read_delta (signed_delta (pos 0)) ≡ pos 0
unfolding signed_delta show_int read_delta show_nat
read_delta-zero = refl

-- The text of a delta determines it: reading back its sign and its digits gives the delta.
pub read_delta-signed_delta : (n : ℤ) → read_delta (signed_delta n) ≡ n
unfolding read_delta
read_delta-signed_delta (pos zero) = read_delta-zero
read_delta-signed_delta (pos (suc n)) =
    ap read_delta (signed_delta-pos n) ∙ ap pos (decimal-show_nat (suc n))
read_delta-signed_delta (negsuc n) =
    ap read_delta (signed_delta-negsuc n) ∙ ap negated (decimal-show_nat (suc n))
