-- ===== src/Harness/Text/Digits.antt =====
-- The bytes that `to_string` of an integer gives.
use slipstream_contracts.Common.{
  ℕ, zero, suc, ◌+◌, ◌/◌, ◌%◌, ◌<◌, [], ◌∷◌, All, ltb, ltb→lt, if_of, arith,
}
use slipstream_contracts.Common.Int.{ℤ, pos, negsuc}
use slipstream_contracts.Harness.Text.{Text, digits, show_nat, show_int}

-- What holds of every digit and of the minus sign holds of every byte of an integer.
module _ (P : ℕ → Type 0) (digit : (d : ℕ) → d < 10 → P (b'0' + d)) where
  All-digits : (fuel n : ℕ) (acc : Text) → All P acc → All P (digits fuel n acc)
  unfolding digits
  All-digits zero n acc h = h
  All-digits (suc fuel) n acc h =
      if_of (All P) (ltb n 10) (λ e. (digit n (ltb→lt n 10 e), h))
        (λ _. All-digits fuel (n / 10) ((b'0' + n % 10) ∷ acc) (digit (n % 10) (omega arith), h))

  pub All-show_int : P b'-' → (n : ℤ) → All P (show_int n)
  unfolding show_int show_nat
  All-show_int minus (pos n) = All-digits (suc n) n [] tt
  All-show_int minus (negsuc n) = (minus, All-digits (suc (suc n)) (suc n) [] tt)
