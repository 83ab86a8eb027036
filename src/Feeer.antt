-- ===== src/Feeer.antt =====
-- currency/feeer.go: the three ways to charge a fee.
pub mod Bounds
mod Tests
use Prim.Native.Nat.{Ordering}
use mitum_currency.Prelude.{
  Bool, true, false, not, ◌&&◌, ◌||◌, Option, none, some, if◌then◌else◌, Result, ok, err, plain,
  invalid, ◌>>=◌, ◌>>◌, guard,
}
use mitum_currency.Mitum.{Mitum}
use mitum_currency.StateKey.{Address}
use mitum_currency.Keys.{address_is_valid}
use mitum_currency.Big.{
  Big, zero_big, nil_big, is_zero, over_nil, equal, compare_big, is_lt, is_gt, mul_float64,
}
use mitum_currency.Big.Float.{
  Float64, is_zero_float, is_one_float, under_zero_float, over_one_float,
}

-- `UnlimitedMaxFeeAmount`
abbrev pub unlimited_max_fee_amount : Big
unlimited_max_fee_amount = nil_big

pub record RatioFeeer : Type 0 where
  pub receiver : Address
  pub ratio : Float64
  pub min : Big
  pub max : Big

pub data Feeer : Type 0 where
  nil_feeer : Feeer
  fixed_feeer : Address → Big → Feeer
  ratio_feeer : RatioFeeer → Feeer

unfoldable pub receiver : Feeer → Option Address
receiver nil_feeer = none
receiver (fixed_feeer a amount) = some a
receiver (ratio_feeer fa) = some fa.receiver

unfoldable pub min_fee : Feeer → Big
min_fee nil_feeer = zero_big
min_fee (fixed_feeer a amount) = amount
min_fee (ratio_feeer fa) = fa.min

-- `isUnlimited`
unfoldable pub is_unlimited : RatioFeeer → Result Bool
is_unlimited fa = equal fa.max unlimited_max_fee_amount

-- The end of `RatioFeeer.Fee`, once the ratio has been applied.
unfoldable pub clamp_fee : RatioFeeer → Big → Result Big
unfolding is_unlimited
clamp_fee fa f = do
  below ← compare_big f fa.min
  (if is_lt below then ok fa.min else do
    unlimited ← is_unlimited fa
    (if unlimited
        then ok f
        else do above ← compare_big f fa.max; ok (if is_gt above then fa.max else f)))

unfoldable pub ratio_fee : RatioFeeer → Big → Result Big
unfolding clamp_fee
ratio_fee fa a =
    if is_zero_float fa.ratio
    then ok zero_big
    else (if is_zero a
        then ok fa.min
        else (if is_one_float fa.ratio
            then ok a
            else (do f ← mul_float64 a fa.ratio; clamp_fee fa f)))

unfoldable pub fee : Feeer → Big → Result Big
unfolding ratio_fee
fee nil_feeer a = ok zero_big
fee (fixed_feeer r amount) a = ok (if is_zero amount then zero_big else amount)
fee (ratio_feeer fa) a = ratio_fee fa a

-- The end of `RatioFeeer.IsValid`, for a maximum that is not the unlimited one.
unfoldable pub limits_are_valid : RatioFeeer → Result (Unit {0})
limits_are_valid fa = do
  guard (over_nil fa.max) (plain invalid)
  o ← compare_big fa.min fa.max
  guard (not (is_gt o)) (plain invalid)

unfoldable pub ratio_is_valid : Mitum → RatioFeeer → Result (Unit {0})
unfolding limits_are_valid
ratio_is_valid m fa = do
  address_is_valid m fa.receiver
  guard (not (under_zero_float fa.ratio || over_one_float fa.ratio)) (plain invalid)
  guard (over_nil fa.min) (plain invalid)
  unlimited ← equal fa.max unlimited_max_fee_amount
  (if unlimited then ok tt else limits_are_valid fa)

unfoldable pub is_valid : Mitum → Feeer → Result (Unit {0})
unfolding ratio_is_valid
is_valid m nil_feeer = ok tt
is_valid m (fixed_feeer r amount) = do address_is_valid m r; guard (over_nil amount) (plain invalid)
is_valid m (ratio_feeer fa) = ratio_is_valid m fa
