-- ===== src/Big/Tests.antt =====
-- currency/big.go: a run of the round trip.
use mitum_currency.Prelude.{◌≡◌, ok}
use mitum_currency.Prelude.Int.{negsuc}
use mitum_currency.Big.{int, div}
use mitum_currency.Prelude.Int.{ℤ}
use mitum_currency.Big.Division.{IsRemainder, div-IsRemainder}
use mitum_currency.Prelude.{ℕ, ◌^◌, ◌<◌, ◌↔◌, arith}
use mitum_currency.Prelude.Int.{pos}
use mitum_currency.Big.Interface.{
  from_uint64, new_big_from_interface, new_big_from_interface-from_uint64,
}
use mitum_currency.Big.Text.{new_big_from_string, big_string, new_big_from_string-big_string}

new_big_from_string-big_string_example :
    new_big_from_string (big_string (int (negsuc 41))) ≡ ok (int (negsuc 41))
new_big_from_string-big_string_example = new_big_from_string-big_string (negsuc 41)

new_big_from_interface-from_uint64_example :
    (new_big_from_interface (from_uint64 (2 ^ 63)) ≡ ok (int (pos (2 ^ 63)))) ↔ (2 ^ 63 < 2 ^ 63)
new_big_from_interface-from_uint64_example =
    new_big_from_interface-from_uint64 (2 ^ 63) (omega arith)

-- -7 by -2
div-IsRemainder_example :
    (q : ℤ) × (r : ℕ) × (div (int (negsuc 6)) (int (negsuc 1)) ≡ ok (int q))
    × IsRemainder (negsuc 6) (negsuc 1) q r
div-IsRemainder_example = div-IsRemainder (negsuc 6) (negsuc 1) (λ e. cc)
