-- ===== src/Big/Division.antt =====
-- currency/big.go: `Div` leaves a remainder that is not negative and below the divisor.
use mitum_currency.Prelude.{ℕ, zero, suc, ◌+◌, ◌-◌, ◌*◌, ◌/◌, ◌%◌, ◌<◌, ◌≡◌, ◌≢◌, refl, ok, arith}
use mitum_currency.Prelude.Int.{ℤ, pos, negsuc, pos_part, neg_part, ◌+ℤ◌, ◌*ℤ◌}
use native.Mathlib.Nat.{div-add-mod, mod-lt}
use mitum_currency.Big.{int, euclidean_quotient, div}

-- A remainder of a division
abbrev pub IsRemainder : ℤ → ℤ → ℤ → ℕ → Type 0
IsRemainder a b q r = (r < pos_part b + neg_part b) × (a ≡ b *ℤ q +ℤ pos r)

quotient_pos-IsRemainder :
    (n d : ℕ) → 0 < d → IsRemainder (pos n) (pos d) (euclidean_quotient (pos n) (pos d)) (n % d)
unfolding euclidean_quotient ◌*ℤ◌ ◌+ℤ◌
quotient_pos-IsRemainder n d h =
    let split = div-add-mod n d in let low : n % d < d = mod-lt n h in (omega arith, ground arith)

quotient_negative-IsRemainder :
    (n d : ℕ)
    → 0 < d
    → IsRemainder (negsuc n) (pos d) (euclidean_quotient (negsuc n) (pos d)) (d - 1 - n % d)
unfolding euclidean_quotient ◌*ℤ◌ ◌+ℤ◌
quotient_negative-IsRemainder n d h =
    let split = div-add-mod n d in
    let low : n % d < d = mod-lt n h in
    let product : d * suc (n / d) ≡ d * (n / d) + d = omega arith in (omega arith, ground arith)

-- A negative divisor gives the negated quotient of the positive one.
negate_divisor :
    (a : ℤ) (d r : ℕ)
    → IsRemainder a (pos (suc d)) (euclidean_quotient a (pos (suc d))) r
    → IsRemainder a (negsuc d) (euclidean_quotient a (negsuc d)) r
unfolding euclidean_quotient ◌*ℤ◌ ◌+ℤ◌
negate_divisor (pos n) d r h = let (low, same) = h in (omega arith, ground arith)
negate_divisor (negsuc n) d r h = let (low, same) = h in (omega arith, ground arith)

-- For integers of which the second is not zero, `Div` succeeds, and the dividend is the divisor
-- times the quotient and a remainder that is not negative and below the magnitude of the divisor.
pub div-IsRemainder :
    (a b : ℤ)
    → b ≢ pos 0
    → (q : ℤ) × (r : ℕ) × (div (int a) (int b) ≡ ok (int q)) × IsRemainder a b q r
unfolding div
div-IsRemainder a (pos zero) h = absurd (h refl)
div-IsRemainder (pos n) (pos (suc d)) h =
    (_, _, ground arith, quotient_pos-IsRemainder n (suc d) (omega arith))
div-IsRemainder (negsuc n) (pos (suc d)) h =
    (_, _, ground arith, quotient_negative-IsRemainder n (suc d) (omega arith))
div-IsRemainder (pos n) (negsuc d) h = (
  _,
  _,
  ground arith,
  negate_divisor (pos n) d _ (quotient_pos-IsRemainder n (suc d) (omega arith)),
)
div-IsRemainder (negsuc n) (negsuc d) h = (
  _,
  _,
  ground arith,
  negate_divisor (negsuc n) d _ (quotient_negative-IsRemainder n (suc d) (omega arith)),
)
