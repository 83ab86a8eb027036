-- ===== src/Prelude/Digits.antt =====
-- The digits of a number in base ten and in base 256, the highest first, with no digit for zero.
use mitum_currency.Prelude.{
  ℕ, zero, suc, ◌/◌, ◌%◌, ◌≤◌, ◌<◌, ◌≡◌, refl, List, [], ◌∷◌, ◌++◌, arith, eqb, if◌then◌else◌,
}

-- The digits in front of `out`; `f` rounds are allowed, and a number needs no more than it is.
digits_fuel : (ℕ → ℕ) → (ℕ → ℕ) → ℕ → ℕ → List ℕ → List ℕ
digits_fuel high low zero n out = out
digits_fuel high low (suc f) n out =
    let rest = digits_fuel high low f (high n) (low n ∷ out) in if eqb n 0 then out else rest

unfoldable pub digits_10 : ℕ → List ℕ
unfolding digits_fuel
digits_10 n = digits_fuel (λ x. x / 10) (λ x. x % 10) n n []

unfoldable pub digits_256 : ℕ → List ℕ
unfolding digits_fuel
digits_256 n = digits_fuel (λ x. x / 256) (λ x. x % 256) n n []

module _ (high low : ℕ → ℕ) (shrinks : (n : ℕ) → 0 < n → high n < n) where
  digits_fuel-append :
      (f n : ℕ) (xs ys : List ℕ)
      → digits_fuel high low f n (xs ++ ys) ≡ digits_fuel high low f n xs ++ ys
  unfolding digits_fuel
  digits_fuel-append zero n xs ys = refl
  digits_fuel-append (suc f) n xs ys = ground (arith, digits_fuel-append f (high n) (low n ∷ xs) ys)

  -- More rounds than needed change nothing.
  digits_fuel-enough :
      (f g n : ℕ) (out : List ℕ)
      → n ≤ f
      → n ≤ g
      → digits_fuel high low f n out ≡ digits_fuel high low g n out
  unfolding digits_fuel
  digits_fuel-enough zero zero n out h k = refl
  digits_fuel-enough zero (suc g) n out h k = ground arith
  digits_fuel-enough (suc f) zero n out h k = ground arith
  digits_fuel-enough (suc f) (suc g) n out h k =
      ground (arith, shrinks n, digits_fuel-enough f g (high n) (low n ∷ out))

  -- The last digit comes last.
  digits_fuel-last :
      (n : ℕ)
      → 0 < n
      → digits_fuel high low n n [] ≡ digits_fuel high low (high n) (high n) [] ++ (low n ∷ [])
  unfolding digits_fuel
  digits_fuel-last zero h = absurd (omega arith)
  digits_fuel-last (suc n) h =
      let same =
        digits_fuel-enough n (high (suc n)) (high (suc n)) (low (suc n) ∷ [])
          (let k = shrinks (suc n) (omega arith) in omega arith) (omega arith) in
      ground (arith, same, digits_fuel-append (high (suc n)) (high (suc n)) [] (low (suc n) ∷ []))

pub digits_10-last : (n : ℕ) → 0 < n → digits_10 n ≡ digits_10 (n / 10) ++ (n % 10 ∷ [])
unfolding digits_10
digits_10-last n h = digits_fuel-last (λ x. x / 10) (λ x. x % 10) (λ x k. omega arith) n h

pub digits_256-last : (n : ℕ) → 0 < n → digits_256 n ≡ digits_256 (n / 256) ++ (n % 256 ∷ [])
unfolding digits_256
digits_256-last n h = digits_fuel-last (λ x. x / 256) (λ x. x % 256) (λ x k. omega arith) n h
