-- ===== src/Prelude/Decimal.antt =====
-- Numbers and integers as decimal texts, as fmt and math/big write them.
use mitum_currency.Prelude.{
  ℕ, zero, suc, ◌+◌, ◌/◌, ◌%◌, ◌<◌, ◌≡◌, refl, ap, ◌∙◌, sym, subst, false, List, [], ◌∷◌, ◌++◌, map,
  eqb, arith, All, if◌then◌else◌,
}
use mitum_currency.Prelude.Int.{ℤ, pos, negsuc}
use mitum_currency.Prelude.Digits.{digits_10, digits_10-last}

unfoldable pub text_of : ℕ → List ℕ
text_of n = if eqb n 0 then 48 ∷ [] else map (λ d. 48 + d) (digits_10 n)

unfoldable pub int_text_of : ℤ → List ℕ
unfolding text_of
int_text_of (pos n) = text_of n
int_text_of (negsuc n) = 45 ∷ text_of (suc n)

pub map-snoc :
    (xs : List ℕ) (x : ℕ)
    → map (λ d. 48 + d) (xs ++ (x ∷ [])) ≡ map (λ d. 48 + d) xs ++ ((48 + x) ∷ [])
map-snoc [] x = refl
map-snoc (y ∷ xs) x = ap (λ ys. (48 + y) ∷ ys) (map-snoc xs x)

pub text_of-suc : (n : ℕ) → text_of (suc n) ≡ map (λ d. 48 + d) (digits_10 (suc n))
unfolding text_of
text_of-suc n = let other : eqb (suc n) 0 ≡ false = ground arith in rw other refl

-- The text of a number above zero ends in its last digit.
pub text_of-last :
    (n : ℕ)
    → text_of (suc n) ≡ map (λ d. 48 + d) (digits_10 (suc n / 10)) ++ ((48 + suc n % 10) ∷ [])
text_of-last n =
    text_of-suc n
    ∙ ap (map (λ d. 48 + d)) (digits_10-last (suc n) (omega arith))
    ∙ map-snoc (digits_10 (suc n / 10)) (suc n % 10)

-- The characters are digits.
abbrev pub AreAbove : ℕ → List ℕ → Type 0
AreAbove least cs = All (λ c. least < c) cs

digits-AreAbove : (ds : List ℕ) → AreAbove 47 (map (λ d. 48 + d) ds)
digits-AreAbove [] = tt
digits-AreAbove (d ∷ ds) = (omega arith, digits-AreAbove ds)

pub text_of-AreAbove : (n : ℕ) → AreAbove 47 (text_of n)
unfolding text_of
text_of-AreAbove zero = (omega arith, tt)
text_of-AreAbove (suc n) =
    subst (AreAbove 47) (sym (text_of-suc n)) (digits-AreAbove (digits_10 (suc n)))
