-- ===== src/Design.antt =====
-- currency/amount.go, currency/currency_policy.go and currency/currency_design.go: amounts of a
-- currency, the policy of a currency and its design.
use mitum_currency.Prelude.{
  Bool, false, not, ◌||◌, Option, none, some, Result, ok, plain, invalid, ◌>>◌, guard, ltb, length,
  ◌==◌, if◌then◌else◌,
}
use mitum_currency.Prelude.Bytes.{bytes_eq_instance}
use mitum_currency.Mitum.{Mitum}
use mitum_currency.CurrencyId
use mitum_currency.CurrencyId.{CurrencyId}
use mitum_currency.StateKey.{Address}
use mitum_currency.Keys.{address_is_valid}
use mitum_currency.Big.{Big, zero_big, over_nil, over_zero, equal}
use mitum_currency.Feeer
use mitum_currency.Feeer.{Feeer}

pub record Amount : Type 0 where
  pub big : Big
  pub cid : CurrencyId

unfoldable pub new_zero_amount : CurrencyId → Amount
new_zero_amount cid = record { big = zero_big; cid = cid }

-- `WithBig`
abbrev pub with_big : Amount → Big → Amount
with_big am b = record am { big = b }

unfoldable pub is_empty : Amount → Bool
is_empty am = ltb (length am.cid) 1 || not (over_nil am.big)

-- `Big.IsValid` accepts every value.
unfoldable pub amount_is_valid : Amount → Result (Unit {0})
amount_is_valid am = CurrencyId.is_valid am.cid

unfoldable pub amount_equal : Amount → Amount → Result Bool
amount_equal am b = if not (am.cid == b.cid) then ok false else equal am.big b.big

pub record CurrencyPolicy : Type 0 where
  pub new_account_min_balance : Big
  pub feeer : Feeer

unfoldable pub policy_is_valid : Mitum → CurrencyPolicy → Result (Unit {0})
policy_is_valid m po = do
  guard (over_nil po.new_account_min_balance) (plain invalid)
  Feeer.is_valid m po.feeer

-- The genesis account may be nil.
pub record CurrencyDesign : Type 0 where
  pub amount : Amount
  pub genesis_account : Option Address
  pub policy : CurrencyPolicy

abbrev pub check_address : Mitum → Option Address → Result (Unit {0})
check_address m none = ok tt
check_address m (some a) = address_is_valid m a

unfoldable pub design_is_valid : Mitum → CurrencyDesign → Result (Unit {0})
design_is_valid m de = do
  amount_is_valid de.amount
  guard (over_zero de.amount.big) (plain invalid)
  check_address m de.genesis_account
  policy_is_valid m de.policy

abbrev pub set_policy : CurrencyDesign → CurrencyPolicy → CurrencyDesign
set_policy de po = record de { policy = po }
