-- ===== src/Big/Interface.antt =====
-- currency/big.go: `Big` from a value of any type, as `interface{}` holds it.
use mitum_currency.Prelude.{
  ℕ, ◌-◌, ◌%◌, ◌^◌, ◌<◌, ◌≡◌, ◌↔◌, ltb, if◌then◌else◌, Result, ok, err, plain, invalid, arith,
  Bool-cases, inl, inr,
}
use mitum_currency.Prelude.Int.{ℤ, pos, negsuc}
use mitum_currency.Prelude.Bytes.{Bytes}
use mitum_currency.Big.{Big, int}
use mitum_currency.Big.Text.{new_big_from_string}

-- What the switch tells apart; every number is one of its type.
pub data Interface : Type 0 where
  from_int from_int8 from_int32 from_int64 : ℤ → Interface
  from_uint from_uint8 from_uint32 from_uint64 : ℕ → Interface
  from_string : Bytes → Interface
  from_other : Interface

-- The conversion of an unsigned number to int64
unfoldable pub to_int64 : ℕ → ℤ
to_int64 n = let r = n % 2 ^ 64 in if ltb r (2 ^ 63) then pos r else negsuc (2 ^ 64 - 1 - r)

unfoldable pub new_big_from_interface : Interface → Result Big
unfolding to_int64
new_big_from_interface (from_int i) = ok (int i)
new_big_from_interface (from_int8 i) = ok (int i)
new_big_from_interface (from_int32 i) = ok (int i)
new_big_from_interface (from_int64 i) = ok (int i)
new_big_from_interface (from_uint n) = ok (int (to_int64 n))
new_big_from_interface (from_uint8 n) = ok (int (to_int64 n))
new_big_from_interface (from_uint32 n) = ok (int (to_int64 n))
new_big_from_interface (from_uint64 n) = ok (int (to_int64 n))
new_big_from_interface (from_string s) = new_big_from_string s
new_big_from_interface from_other = err (plain invalid)

-- For a number below 2^64, `NewBigFromInterface` of the uint64 gives the `Big` of that number
-- exactly if the number is below 2^63.
pub new_big_from_interface-from_uint64 :
    (n : ℕ)
    → n < 2 ^ 64
    → (new_big_from_interface (from_uint64 n) ≡ ok (int (pos n))) ↔ (n < 2 ^ 63)
unfolding new_big_from_interface to_int64
new_big_from_interface-from_uint64 n small =
    let kept : n % 2 ^ 64 ≡ n = omega arith in
    elim (Bool-cases (ltb n (2 ^ 63))) [ inl low ↦ ground arith | inr high ↦ ground arith ]
