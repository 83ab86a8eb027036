-- ===== src/StateKey/Tests.antt =====
-- currency/state.go: runs.
use mitum_currency.Prelude.{◌≡◌, refl, true}
use mitum_currency.Prelude.Bytes.{bytes}
use mitum_currency.CurrencyId
use mitum_currency.StateKey.{
  is_state_account_key, is_state_balance_key, is_state_currency_design_key,
}
use mitum_currency.StateKey.Distinct.{balance, state_key, state_key-injective}
use mitum_currency.StateKey.Kinds.{is_account, is_balance, is_design, state_key_kinds}

state_key-injective_example :
    balance (bytes "a-b") (bytes "MCC") ≡ balance (bytes "a-b") (bytes "MCC")
unfolding CurrencyId.is_valid CurrencyId.matches_currency_id CurrencyId.matches_rest
    CurrencyId.is_inner CurrencyId.is_edge
state_key-injective_example =
    state_key-injective (balance (bytes "a-b") (bytes "MCC")) (balance (bytes "a-b") (bytes "MCC"))
      refl refl refl

state_key_kinds_example :
    (is_state_account_key (state_key (balance (bytes "ann") (bytes "MCC")))
      ≡ is_account (balance (bytes "ann") (bytes "MCC")))
    × (is_state_balance_key (state_key (balance (bytes "ann") (bytes "MCC")))
        ≡ is_balance (balance (bytes "ann") (bytes "MCC")))
    × (is_design (balance (bytes "ann") (bytes "MCC")) ≡ true
        → is_state_currency_design_key (state_key (balance (bytes "ann") (bytes "MCC"))) ≡ true)
unfolding CurrencyId.is_valid CurrencyId.matches_currency_id CurrencyId.matches_rest
    CurrencyId.is_inner CurrencyId.is_edge
state_key_kinds_example = state_key_kinds (balance (bytes "ann") (bytes "MCC")) refl
