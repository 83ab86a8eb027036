-- ===== src/Big/Text.antt =====
-- currency/big.go: `Big` as a decimal text.
use mitum_currency.Prelude.{
  ℕ, zero, suc, ◌+◌, ◌-◌, ◌*◌, ◌/◌, ◌%◌, ◌<◌, ◌≤◌, ◌≡◌, refl, ap, ◌∙◌, sym, false, Option, none,
  some, [], ◌∷◌, ◌++◌, map, eqb, leb, Result, ok, err, plain, invalid, arith, if◌then◌else◌, ◌&&◌,
}
use mitum_currency.Prelude.Int.{ℤ, pos, negsuc, sub_ℕ}
use mitum_currency.Prelude.Bytes.{Bytes, bytes}
use mitum_currency.Prelude.Digits.{digits_10}
use mitum_currency.Prelude.Decimal.{
  text_of, int_text_of, map-snoc, text_of-last, text_of-suc, AreAbove, text_of-AreAbove,
}
use mitum_currency.Prelude.Digits.{digits_10-last}
use mitum_currency.Big.{Big, nil, int}

-- The digits that `SetString` reads in base ten, after the value `v`.
unfoldable pub value_next : Option ℕ → ℕ → Option ℕ
value_next none c = none
value_next (some v) c = if leb 48 c && leb c 57 then some (v * 10 + (c - 48)) else none

unfoldable pub value_from : Option ℕ → Bytes → Option ℕ
unfolding value_next
value_from v [] = v
value_from v (c ∷ cs) = value_from (value_next v c) cs

unfoldable pub unsigned_value : Bytes → Option ℕ
unfolding value_from
unsigned_value [] = none
unsigned_value (c ∷ cs) = value_from (some 0) (c ∷ cs)

-- `SetString` of math/big, in base ten
unfoldable pub set_string : Bytes → Option ℤ
unfolding unsigned_value
set_string [] = none
set_string (c ∷ cs) =
    if eqb c 45
    then elim (unsigned_value cs) [ none ↦ none | some n ↦ some (sub_ℕ 0 n) ]
    else if eqb c 43
    then elim (unsigned_value cs) [ none ↦ none | some n ↦ some (pos n) ]
    else elim (unsigned_value (c ∷ cs)) [ none ↦ none | some n ↦ some (pos n) ]

unfoldable pub new_big_from_string : Bytes → Result Big
unfolding set_string
new_big_from_string s = elim (set_string s) [ none ↦ err (plain invalid) | some z ↦ ok (int z) ]

-- `String`
unfoldable pub big_string : Big → Bytes
big_string nil = bytes "-1"
big_string (int z) = int_text_of z

value_from-snoc :
    (v : Option ℕ) (cs : Bytes) (c : ℕ)
    → value_from v (cs ++ (c ∷ [])) ≡ value_next (value_from v cs) c
unfolding value_from
value_from-snoc v [] c = refl
value_from-snoc v (d ∷ cs) c = value_from-snoc (value_next v d) cs c

value_from-digits :
    (bound n : ℕ) → n ≤ bound → value_from (some 0) (map (λ d. 48 + d) (digits_10 n)) ≡ some n
unfolding value_from value_next digits_10
value_from-digits bound zero h = refl
value_from-digits zero (suc n) h = absurd (omega arith)
value_from-digits (suc bound) (suc n) h =
    let k = suc n in
    let low : k % 10 < 10 = omega arith in
    let whole : k / 10 * 10 + (48 + k % 10 - 48) ≡ k = omega arith in
    let before = value_from-digits bound (k / 10) (omega arith) in
    let read : value_next (some (k / 10)) (48 + k % 10) ≡ some k = ground arith in
    ap (λ ds. value_from (some 0) (map (λ d. 48 + d) ds)) (digits_10-last k (omega arith))
    ∙ ap (value_from (some 0)) (map-snoc (digits_10 (k / 10)) (k % 10))
    ∙ value_from-snoc (some 0) (map (λ d. 48 + d) (digits_10 (k / 10))) (48 + k % 10)
    ∙ ap (λ v. value_next v (48 + k % 10)) before
    ∙ read

unsigned_value-snoc :
    (cs : Bytes) (c : ℕ) → unsigned_value (cs ++ (c ∷ [])) ≡ value_from (some 0) (cs ++ (c ∷ []))
unfolding unsigned_value
unsigned_value-snoc [] c = refl
unsigned_value-snoc (d ∷ cs) c = refl

unsigned_value-zero : unsigned_value (48 ∷ []) ≡ some 0
unfolding unsigned_value value_from value_next
unsigned_value-zero = refl

unsigned_value-text_of : (n : ℕ) → unsigned_value (text_of n) ≡ some n
unfolding text_of
unsigned_value-text_of zero = unsigned_value-zero
unsigned_value-text_of (suc n) =
    ap unsigned_value (text_of-last n)
    ∙ unsigned_value-snoc _ _
    ∙ ap (value_from (some 0)) (sym (text_of-last n) ∙ text_of-suc n)
    ∙ value_from-digits (suc n) (suc n) (omega arith)

-- A text of digits has no sign.
set_string-digits :
    (cs : Bytes)
    → AreAbove 47 cs
    → set_string cs ≡ elim (unsigned_value cs) [ none ↦ none | some n ↦ some (pos n) ]
unfolding set_string unsigned_value
set_string-digits [] h = refl
set_string-digits (c ∷ cs) h =
    let digit = h.0 in
    let minus : eqb c 45 ≡ false = ground arith in
    let plus : eqb c 43 ≡ false = ground arith in rw (minus, plus) refl

set_string-minus :
    (cs : Bytes)
    → set_string (45 ∷ cs) ≡ elim (unsigned_value cs) [ none ↦ none | some n ↦ some (sub_ℕ 0 n) ]
unfolding set_string
set_string-minus cs = refl

set_string-int_text_of : (z : ℤ) → set_string (int_text_of z) ≡ some z
unfolding int_text_of
set_string-int_text_of (pos n) =
    set_string-digits (text_of n) (text_of-AreAbove n)
    ∙ ap (λ v. elim v [ none ↦ none | some n ↦ some (pos n) ]) (unsigned_value-text_of n)
set_string-int_text_of (negsuc n) =
    let under_zero : sub_ℕ 0 (suc n) ≡ negsuc n = ground arith in
    set_string-minus (text_of (suc n))
    ∙ ap (λ v. elim v [ none ↦ none | some k ↦ some (sub_ℕ 0 k) ]) (unsigned_value-text_of (suc n))
    ∙ ap some under_zero

-- For every integer, `NewBigFromString` of what `String` writes of it as a `Big` is that `Big`.
pub new_big_from_string-big_string : (z : ℤ) → new_big_from_string (big_string (int z)) ≡ ok (int z)
unfolding new_big_from_string big_string
new_big_from_string-big_string z =
    ap (λ v. elim v as (λ w. Result Big) [ none ↦ err (plain invalid) | some y ↦ ok (int y) ])
      (set_string-int_text_of z)
