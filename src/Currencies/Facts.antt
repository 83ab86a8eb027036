-- ===== src/Currencies/Facts.antt =====
-- currency/currency_register.go, currency/currency_policy_updater.go, currency/currency_policy.go and
-- currency/feeer.go: the bytes, the hashes and the validity of the facts of currencies.
use mitum_currency.Prelude.{
  Bool, true, false, not, none, some, [], ◌++◌, ltb, length, Result, ok, plain, invalid, external,
  guard, ◌>>=◌, ◌>>◌,
}
use mitum_currency.Prelude.Bytes.{Bytes}
use mitum_currency.Mitum.{Mitum}
use mitum_currency.CurrencyId
use mitum_currency.CurrencyId.{CurrencyId}
use mitum_currency.Big.Bytes.{big_bytes}
use mitum_currency.Feeer.{Feeer, nil_feeer, fixed_feeer, ratio_feeer}
use mitum_currency.Items.{amount_bytes}
use mitum_currency.Design.{CurrencyDesign, CurrencyPolicy, design_is_valid, policy_is_valid}
use mitum_currency.Currencies.{CurrencyRegisterFact, CurrencyPolicyUpdaterFact}

-- `Bytes` of the three feeers
unfoldable pub feeer_bytes : Mitum → Feeer → Result Bytes
feeer_bytes m nil_feeer = ok []
feeer_bytes m (fixed_feeer r amount) = do b ← big_bytes amount; ok (m.hinted_address r ++ b)
feeer_bytes m (ratio_feeer fa) = do
  least ← big_bytes fa.min
  most ← big_bytes fa.max
  ok (m.hinted_address fa.receiver ++ (m.float_bytes fa.ratio ++ (least ++ most)))

unfoldable pub policy_bytes : Mitum → CurrencyPolicy → Result Bytes
unfolding feeer_bytes
policy_bytes m po = do
  b ← big_bytes po.new_account_min_balance
  f ← feeer_bytes m po.feeer
  ok (b ++ f)

-- `CurrencyDesign` has no `Bytes` but the one of the amount that it embeds.
unfoldable pub design_bytes : CurrencyDesign → Result Bytes
design_bytes de = amount_bytes de.amount

unfoldable pub register_generate_hash : (m : Mitum) → Bytes → CurrencyDesign → Result m.Hash
unfolding design_bytes
register_generate_hash m token de = do b ← design_bytes de; ok (m.sha256 (token ++ b))

abbrev pub has_genesis_account : CurrencyDesign → Bool
has_genesis_account de = elim de.genesis_account [ none ↦ false | some a ↦ true ]

unfoldable pub policy_generate_hash :
    (m : Mitum) → Bytes → CurrencyId → CurrencyPolicy → Result m.Hash
unfolding policy_bytes
policy_generate_hash m token cid po = do b ← policy_bytes m po; ok (m.sha256 (token ++ (cid ++ b)))

module _ {m : Mitum} where
  -- `NewCurrencyRegisterFact`
  unfoldable pub new_register_fact : Bytes → CurrencyDesign → Result (CurrencyRegisterFact m)
  unfolding register_generate_hash
  new_register_fact token de = do
    h ← register_generate_hash m token de
    ok (record { h = h; token = token; currency = de })

  unfoldable pub register_fact_is_valid : CurrencyRegisterFact m → Result (Unit {0})
  unfolding register_generate_hash
  register_fact_is_valid fact = do
    guard (not (ltb (length fact.token) 1)) (plain invalid)
    guard (m.hash_is_valid fact.h) (plain external)
    design_is_valid m fact.currency
    guard (has_genesis_account fact.currency) (plain invalid)
    h ← register_generate_hash m fact.token fact.currency
    guard (m.hash_equal fact.h h) (plain invalid)

  -- `NewCurrencyPolicyUpdaterFact`
  unfoldable pub new_policy_fact :
      Bytes → CurrencyId → CurrencyPolicy → Result (CurrencyPolicyUpdaterFact m)
  unfolding policy_generate_hash
  new_policy_fact token cid po = do
    h ← policy_generate_hash m token cid po
    ok (record { h = h; token = token; cid = cid; policy = po })

  unfoldable pub policy_fact_is_valid : CurrencyPolicyUpdaterFact m → Result (Unit {0})
  unfolding policy_generate_hash
  policy_fact_is_valid fact = do
    guard (not (ltb (length fact.token) 1)) (plain invalid)
    guard (m.hash_is_valid fact.h) (plain external)
    CurrencyId.is_valid fact.cid
    policy_is_valid m fact.policy
    h ← policy_generate_hash m fact.token fact.cid fact.policy
    guard (m.hash_equal fact.h h) (plain invalid)
