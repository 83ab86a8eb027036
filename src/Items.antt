-- ===== src/Items.antt =====
-- The amounts of the items of transfers and new accounts: currency/transfers_item.go and
-- currency/create_accounts_item.go check and encode them alike; `Amount.Bytes` is in
-- currency/amount.go.
pub mod Valid
pub mod Collision
mod Tests
use mitum_currency.Prelude.{
  ℕ, Bool, true, false, not, List, [], ◌∷◌, ◌++◌, ltb, eqb, length, Result, ok, err, plain, invalid,
  duplicated, guard, ◌>>=◌, ◌>>◌,
}
use mitum_currency.Prelude.Bytes.{Bytes}
use mitum_currency.CurrencyId.{CurrencyId}
use mitum_currency.Big.{over_zero}
use mitum_currency.Big.Bytes.{big_bytes}
use mitum_currency.Keys.{contains_text}
use mitum_currency.Design.{Amount, amount_is_valid}

-- `TransfersItemSingleAmount`, `TransfersItemMultiAmounts` and `BaseTransfersItem`, and their likes of
-- new accounts. The constructors of the package give the first two; the registered hinters are of
-- the base types, so that an item that was decoded is a base item, whatever its hint.
pub data ItemKind : Type 0 where
  single_amount multi_amounts base_item : ItemKind

-- `maxCurenciesCreateAccountsItemMultiAmounts`, with which transfers are compared too
abbrev pub max_currencies : ℕ
max_currencies = 10

unfoldable pub amount_bytes : Amount → Result Bytes
unfolding big_bytes
amount_bytes am = do b ← big_bytes am.big; ok (b ++ am.cid)

unfoldable pub amounts_bytes : List Amount → Result Bytes
unfolding amount_bytes
amounts_bytes [] = ok []
amounts_bytes (am ∷ ams) = do b ← amount_bytes am; bs ← amounts_bytes ams; ok (b ++ bs)

-- The loop over the amounts; `founds` are the currencies that it has met.
unfoldable pub check_amounts : List CurrencyId → List Amount → Result (Unit {0})
check_amounts founds [] = ok tt
check_amounts founds (am ∷ ams) =
    let rest = check_amounts (am.cid ∷ founds) ams in
    (do
      guard (not (contains_text am.cid founds)) (plain duplicated)
      amount_is_valid am
      guard (over_zero am.big) (plain invalid)
      rest)

-- `IsValid` of the base item, behind the check of its keys or its receiver.
unfoldable pub amounts_are_valid : List Amount → Result (Unit {0})
unfolding check_amounts
amounts_are_valid ams = do guard (not (eqb (length ams) 0)) (plain invalid); check_amounts [] ams

-- What `IsValid` of the kinds adds to that of the base item.
unfoldable pub kind_is_valid : ItemKind → List Amount → Result (Unit {0})
kind_is_valid single_amount ams = guard (eqb (length ams) 1) (plain invalid)
kind_is_valid multi_amounts ams = guard (not (ltb max_currencies (length ams))) (plain invalid)
kind_is_valid base_item ams = ok tt
