-- ===== src/Host/Words.antt =====
-- The arithmetic of the contracts: `u64`, `u32` and `i128`, where an overflow panics
-- (`overflow-checks = true` in Cargo.toml).
use slipstream_contracts.Common.{ℕ, ◌+◌, ◌*◌, ◌≤◌, ◌≡◌, refl, Bool, true, ◌&&◌, leb, arith}
use slipstream_contracts.Common.Int.{ℤ, pos, negsuc, ◌+ℤ◌, ◌-ℤ◌, ◌≤ℤ◌, leb_ℤ}
use slipstream_contracts.Host.{Call, done, check}

unfoldable pub fits_u64 : ℕ → Bool
fits_u64 n = leb n 18446744073709551615

unfoldable pub fits_i128 : ℤ → Bool
fits_i128 x =
    leb_ℤ (negsuc 170141183460469231731687303715884105727) x
    && leb_ℤ x (pos 170141183460469231731687303715884105727)

module _ {K : Type 0} {V : K → Type 0} {W : Type 0} where
  -- `a + b` on `u64`
  abbrev pub add_u64 : ℕ → ℕ → Call K V W ℕ
  add_u64 a b = check (fits_u64 (a + b)) (done (a + b))

  -- `a + b` and `a - b` on `i128`
  abbrev pub add_i128 : ℤ → ℤ → Call K V W ℤ
  add_i128 a b = check (fits_i128 (a +ℤ b)) (done (a +ℤ b))

  abbrev pub sub_i128 : ℤ → ℤ → Call K V W ℤ
  sub_i128 a b = check (fits_i128 (a -ℤ b)) (done (a -ℤ b))

pub fits_u64-le : (a b : ℕ) → a ≤ b → fits_u64 b ≡ true → fits_u64 a ≡ true
unfolding fits_u64
fits_u64-le a b h e = ground arith

pub zero-fits : fits_u64 0 ≡ true
unfolding fits_u64
zero-fits = refl

-- Five for each of a `u64` of operations is an `i128`.
pub fits_i128-fees :
    (x : ℤ) (n : ℕ) → pos 0 ≤ℤ x → x ≤ℤ pos (5 * n) → fits_u64 n ≡ true → fits_i128 x ≡ true
unfolding fits_u64 fits_i128
fits_i128-fees x n h k e = ground arith
