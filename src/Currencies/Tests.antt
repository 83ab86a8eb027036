-- ===== src/Currencies/Tests.antt =====
-- currency/currency_register_process.go: runs.
use mitum_currency.Prelude.{some, none, List, [], ◌∷◌, ◌≡◌, refl}
use mitum_currency.Prelude.Int.{pos, ◌+ℤ◌}
use mitum_currency.Prelude.Bytes.{bytes, bytes_eq_instance}
use mitum_currency.Prelude.Sums.{at_key}
use mitum_currency.Big
use mitum_currency.Big.{int}
use mitum_currency.StateKey
use mitum_currency.CurrencyId.{CurrencyId}
use mitum_currency.Feeer
use mitum_currency.Feeer.{nil_feeer}
use mitum_currency.Design.{CurrencyDesign}
use mitum_currency.State
use mitum_currency.State.{State, plain_state, amount_state, design_value}
use mitum_currency.Pool
use mitum_currency.Fees
use mitum_currency.Emission.Deltas.{delta, fee_total}
use mitum_currency.Currencies
use mitum_currency.Currencies.{CurrencyRegister}
use mitum_currency.Currencies.Minting.{register-delta}
use mitum_currency.Prelude.{ok, ◌++◌}
use mitum_currency.Currencies.{CurrencyRegisterFact}
use mitum_currency.Currencies.Facts.{register_fact_is_valid}
use mitum_currency.Currencies.Swapping.{register_fact-swap}
use mitum_currency.Examples.{
  eve, net, api, address_of, ann, bob, pool, get_state, get_state-ReadsFresh,
  get_state-ReadsPlainDesigns,
}
use mitum_currency.Design
use mitum_currency.CurrencyId
use mitum_currency.Items
use mitum_currency.Keys

abbrev new_coin : CurrencyId
new_coin = bytes "NEW"

abbrev new_design : CurrencyDesign
new_design = record {
  amount = record { big = int (pos 500); cid = new_coin };
  genesis_account = some (address_of ann);
  policy = record { new_account_min_balance = int (pos 1); feeer = nil_feeer };
}

abbrev registration : CurrencyRegister net
registration = record {
  fact = record { h = []; token = 1 ∷ []; currency = new_design };
  signs = bob ∷ [];
  memo = [];
}

abbrev emitted : List (State api)
emitted =
    amount_state (record { state = none; cid = new_coin; add = int (pos 500); fee = int (pos 0) })
    ∷ plain_state (some (design_value new_design))
    ∷ []

register-delta_example :
    (delta new_coin emitted ≡ at_key new_coin new_coin (pos 500))
    × (fee_total new_coin emitted ≡ pos 0)
unfolding Currencies.register_pre_process Currencies.register_process Currencies.check_suffrage
    Currencies.check_registered Currencies.genesis_account Currencies.check_receiver Feeer.receiver
    Fees.check_fact_signs_by_pubs Fees.count_signed Fees.is_one_of Pool.exists
    State.check_exists_state State.new_amount_state State.add_amount
    State.set_state_currency_design_value State.set_value Big.add ◌+ℤ◌ StateKey.state_key_account
    StateKey.state_key_balance StateKey.state_balance_key_prefix StateKey.state_address_key_prefix
    StateKey.state_key_currency_design
register-delta_example =
    register-delta get_state get_state-ReadsFresh get_state-ReadsPlainDesigns new_coin (some pool)
      (bob ∷ []) 1 registration refl refl

abbrev signed_fact : CurrencyRegisterFact net
signed_fact = record {
  h = (1 ∷ []) ++ ((1 ∷ 244 ∷ []) ++ new_coin);
  token = 1 ∷ [];
  currency = new_design;
}

-- The same amount, for another holder
abbrev swapped : CurrencyDesign
swapped = record new_design { genesis_account = some (address_of eve) }

register_fact-swap_example :
    register_fact_is_valid (record signed_fact { currency = swapped }) ≡ ok tt
unfolding register_fact_is_valid Design.design_is_valid Design.amount_is_valid CurrencyId.is_valid
    Big.over_zero Keys.address_is_valid Design.policy_is_valid Big.over_nil Feeer.is_valid
    Items.amount_bytes
register_fact-swap_example =
    register_fact-swap signed_fact swapped (address_of eve) refl refl refl refl
