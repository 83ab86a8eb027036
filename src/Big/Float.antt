-- ===== src/Big/Float.antt =====
-- The part of Go's float64 and of `big.Float` on which `Big.MulFloat64` (currency/big.go) stands.
-- A finite float64 is a sign, a mantissa and a number of binary places: ± m / 2^k. A `big.Float`
-- made by `SetString` has 64 bits of mantissa, and so has its product with a float64.
use mitum_currency.Prelude.{
  ℕ, zero, suc, ◌-◌, ◌*◌, ◌/◌, ◌%◌, ◌^◌, Bool, false, not, ◌&&◌, ◌||◌, if◌then◌else◌, eqb, ltb, leb,
}

pub data Float64 : Type 0 where
  nan : Float64
  infinity : Bool → Float64
  finite : Bool → ℕ → ℕ → Float64

-- `ratio == 0`, `ratio == 1`, `ratio < 0`, `ratio > 1`: NaN fails each of them.
unfoldable pub is_zero_float : Float64 → Bool
is_zero_float (finite negative m k) = eqb m 0
is_zero_float _ = false

unfoldable pub is_one_float : Float64 → Bool
is_one_float (finite negative m k) = not negative && eqb m (2 ^ k)
is_one_float _ = false

unfoldable pub under_zero_float : Float64 → Bool
under_zero_float (finite negative m k) = negative && ltb 0 m
under_zero_float (infinity negative) = negative
under_zero_float nan = false

unfoldable pub over_one_float : Float64 → Bool
over_one_float (finite negative m k) = not negative && ltb (2 ^ k) m
over_one_float (infinity negative) = not negative
over_one_float nan = false

-- The number of bits of `n`, on fuel that bounds it.
unfoldable pub bit_length_fuel : ℕ → ℕ → ℕ
bit_length_fuel zero n = 0
bit_length_fuel (suc f) n = let rest = bit_length_fuel f (n / 2) in if eqb n 0 then 0 else suc rest

unfoldable pub bit_length : ℕ → ℕ
unfolding bit_length_fuel
bit_length n = bit_length_fuel n n

-- `n` to the nearest number of at most 64 significant bits, `s + 1` bits cut off; ties to even.
unfoldable pub round_at : ℕ → ℕ → ℕ
round_at s n =
    let q = n / 2 ^ suc s in
    let r = n % 2 ^ suc s in
    let up = ltb (2 ^ s) r || (eqb r (2 ^ s) && eqb (q % 2) 1) in
    (if up then suc q else q) * 2 ^ suc s

unfoldable pub round_64 : ℕ → ℕ
unfolding bit_length round_at
round_64 n = let l = bit_length n in if leb l 64 then n else round_at (l - 65) n

-- |a| * m / 2^k, rounded as `SetString` and `Mul` do, without its fraction.
unfoldable pub mul_float_magnitude : ℕ → ℕ → ℕ → ℕ
unfolding round_64
mul_float_magnitude a m k = round_64 (round_64 a * m) / 2 ^ k
