-- ===== src/Feeer/Tests.antt =====
-- currency/feeer.go: runs.
use mitum_currency.Prelude.{false, refl}
use mitum_currency.Prelude.Int.{pos}
use mitum_currency.Keys
use mitum_currency.Big
use mitum_currency.Big.{int}
use mitum_currency.Big.Float.{finite}
use mitum_currency.Big.Float
use mitum_currency.Feeer.{RatioFeeer, ratio_fee}
use mitum_currency.Feeer.Bounds.{IsWithin, ratio_fee-IsWithin}
use mitum_currency.Examples.{net, address_of, bob}
use mitum_currency.Feeer

-- A quarter, from 3 to 20.
abbrev quarter : RatioFeeer
quarter = record {
  receiver = address_of bob;
  ratio = finite false 1 2;
  min = int (pos 3);
  max = int (pos 20);
}

ratio_fee-IsWithin_example : IsWithin quarter (int (pos 20))
unfolding Feeer.ratio_fee Feeer.ratio_is_valid Feeer.clamp_fee Feeer.is_unlimited
    Feeer.limits_are_valid Keys.address_is_valid Keys.is_blank Big.is_zero Big.over_nil Big.equal
    Big.compare_big Big.mul_float64 Float.is_zero_float Float.is_one_float Float.under_zero_float
    Float.over_one_float Float.mul_float_magnitude Float.round_64 Float.bit_length
    Float.bit_length_fuel Float.round_at
ratio_fee-IsWithin_example = ratio_fee-IsWithin net quarter (int (pos 100)) refl refl refl refl refl
