-- ===== src/FeeOperation/Facts.antt =====
-- currency/fee.go: the fact by which the fees of a block are paid out, and its operation.
use mitum_currency.Prelude.{
  not, List, [], ◌∷◌, ◌++◌, ltb, length, Result, ok, plain, invalid, external, guard, ◌>>=◌, ◌>>◌,
}
use mitum_currency.Prelude.Bytes.{Bytes}
use mitum_currency.Prelude.Map.{Map}
use mitum_currency.Mitum.{Mitum}
use mitum_currency.CurrencyId.{CurrencyId}
use mitum_currency.Big.{Big}
use mitum_currency.Items.{amounts_bytes}
use mitum_currency.Design.{Amount, amount_is_valid}
use mitum_currency.FeeOperation.{fee_amounts}

pub record FeeOperationFact (m : Mitum) : Type 0 where
  pub h : m.Hash
  pub token : Bytes
  pub amounts : List Amount

unfoldable pub fact_bytes : Bytes → List Amount → Result Bytes
fact_bytes token ams = do b ← amounts_bytes ams; ok (token ++ b)

unfoldable pub check_amounts : List Amount → Result (Unit {0})
check_amounts [] = ok tt
check_amounts (am ∷ ams) = do amount_is_valid am; check_amounts ams

module _ {m : Mitum} where
  -- `NewFeeOperationFact`, for the bytes of the height
  unfoldable pub new_fact : Bytes → Map CurrencyId Big → Result (FeeOperationFact m)
  unfolding fact_bytes
  new_fact height_bytes fees = do
    b ← fact_bytes height_bytes (fee_amounts fees)
    ok (record { h = m.sha256 b; token = height_bytes; amounts = fee_amounts fees })

  unfoldable pub fact_is_valid : FeeOperationFact m → Result (Unit {0})
  unfolding check_amounts
  fact_is_valid fact = do
    guard (not (ltb (length fact.token) 1)) (plain invalid)
    guard (m.hash_is_valid fact.h) (plain external)
    check_amounts fact.amounts
