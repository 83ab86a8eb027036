-- ===== src/Big.antt =====
-- currency/big.go: `Big`, a pointer to an integer of math/big that may be nil. The methods that
-- dereference a nil pointer panic. The other components compute with these methods alone.
pub mod Float
pub mod Laws
pub mod Bytes
pub mod Text
pub mod Division
pub mod Interface
mod Tests
use Prim.Native.Nat.{compare, Ordering}
use mitum_currency.Prelude.{
  ℕ, suc, ◌+◌, ◌/◌, Bool, true, false, if◌then◌else◌, Result, ok, err, panic,
}
use mitum_currency.Prelude.Int.{ℤ, pos, negsuc, pos_part, neg_part, sub_ℕ, ◌+ℤ◌, ◌-ℤ◌, ◌*ℤ◌}
use Float.{Float64, nan, infinity, finite, mul_float_magnitude}

pub data Big : Type 0 where
  nil : Big
  int : ℤ → Big

-- `NewBig(0)`, `NilBig = NewBig(-1)`
abbrev pub zero_big : Big
zero_big = int (pos 0)

abbrev pub nil_big : Big
nil_big = int (negsuc 0)

-- `(*big.Int).Cmp` on two pointers that are not nil
abbrev pub cmp : ℤ → ℤ → Ordering
cmp a b = compare (pos_part a + neg_part b) (pos_part b + neg_part a)

unfoldable pub is_zero : Big → Bool
is_zero nil = true
is_zero (int a) = elim (cmp a (pos 0)) [ Ordering.eq ↦ true | _ ↦ false ]

unfoldable pub over_zero : Big → Bool
over_zero nil = false
over_zero (int a) = elim (cmp a (pos 0)) [ Ordering.gt ↦ true | _ ↦ false ]

unfoldable pub over_nil : Big → Bool
over_nil nil = false
over_nil (int a) = elim (cmp a (pos 0)) [ Ordering.lt ↦ false | _ ↦ true ]

unfoldable pub equal : Big → Big → Result Bool
equal nil b = ok false
equal (int a) nil = err panic
equal (int a) (int b) = ok (elim (cmp a b) [ Ordering.eq ↦ true | _ ↦ false ])

-- `Compare`, whose -1, 0 and 1 are `lt`, `eq` and `gt`
unfoldable pub compare_big : Big → Big → Result Ordering
compare_big nil b = ok Ordering.lt
compare_big (int a) nil = err panic
compare_big (int a) (int b) = ok (cmp a b)

abbrev pub is_lt : Ordering → Bool
is_lt Ordering.lt = true
is_lt _ = false

abbrev pub is_gt : Ordering → Bool
is_gt Ordering.gt = true
is_gt _ = false

unfoldable pub add : Big → Big → Result Big
add (int a) (int b) = ok (int (a +ℤ b))
add (int a) nil = err panic
add nil b = err panic

unfoldable pub sub : Big → Big → Result Big
sub (int a) (int b) = ok (int (a -ℤ b))
sub (int a) nil = err panic
sub nil b = err panic

unfoldable pub mul : Big → Big → Result Big
mul (int a) (int b) = ok (int (a *ℤ b))
mul (int a) nil = err panic
mul nil b = err panic

unfoldable pub neg : Big → Result Big
neg (int a) = ok (int (pos 0 -ℤ a))
neg nil = err panic

-- `MulFloat64`. Rounding is to nearest even, alike for both signs, and `(*big.Float).Int` cuts
-- the fraction off, so the sign and the magnitude are computed apart. An infinite product leaves
-- the integer at its zero value; 0 times infinity and NaN panic, and so does a nil receiver.
unfoldable pub mul_float64 : Big → Float64 → Result Big
unfolding mul_float_magnitude
mul_float64 nil b = err panic
mul_float64 (int a) nan = err panic
mul_float64 (int a) (infinity negative) = elim (cmp a (pos 0)) [
  | Ordering.eq ↦ err panic
  | _ ↦ ok (int (pos 0))
]
mul_float64 (int (pos n)) (finite negative m k) =
    let p = mul_float_magnitude n m k in ok (int (if negative then sub_ℕ 0 p else pos p))
mul_float64 (int (negsuc n)) (finite negative m k) =
    let p = mul_float_magnitude (n + 1) m k in ok (int (if negative then pos p else sub_ℕ 0 p))

-- `MulInt64`
unfoldable pub mul_int64 : Big → ℤ → Result Big
mul_int64 (int a) b = ok (int (a *ℤ b))
mul_int64 nil b = err panic

-- The quotient of `Div` of math/big, which leaves a remainder that is not negative
unfoldable pub euclidean_quotient : ℤ → ℤ → ℤ
euclidean_quotient (pos n) (pos d) = pos (n / d)
euclidean_quotient (pos n) (negsuc d) = sub_ℕ 0 (n / suc d)
euclidean_quotient (negsuc n) (pos d) = negsuc (n / d)
euclidean_quotient (negsuc n) (negsuc d) = pos (n / suc d + 1)

-- `Div`
unfoldable pub div : Big → Big → Result Big
div nil b = err panic
div (int a) nil = err panic
div (int a) (int b) = elim (cmp b (pos 0)) [
  | Ordering.eq ↦ err panic
  | _ ↦ ok (int (euclidean_quotient a b))
]
