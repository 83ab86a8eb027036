-- ===== src/CreateAccounts/Tests.antt =====
-- currency/create_accounts_process.go: runs.
use mitum_currency.Prelude.{some, none, List, [], ◌∷◌, ◌++◌, ◌≡◌, refl}
use mitum_currency.Prelude.Int.{pos, negsuc, ◌+ℤ◌, ◌-ℤ◌}
use mitum_currency.Prelude.Bytes.{bytes}
use mitum_currency.Big
use mitum_currency.Big.{int}
use mitum_currency.StateKey
use mitum_currency.Keys
use mitum_currency.Keys.Sorting.{sort_by, insert_by, bytes_lt}
use mitum_currency.Feeer
use mitum_currency.State
use mitum_currency.State.{State, plain_state, amount_state, amount_value, account_value}
use mitum_currency.Pool
use mitum_currency.Fees
use mitum_currency.Fees.Required
use mitum_currency.Fees.Required.{charges_total}
use mitum_currency.Emission
use mitum_currency.Emission.Deltas.{delta, fee_total}
use mitum_currency.CreateAccounts
use mitum_currency.CreateAccounts.{CreateAccounts, CreateAccountsFact, pre_process, process}
use mitum_currency.Prelude.{ok, ◌↔◌}
use mitum_currency.Items.{single_amount}
use mitum_currency.CreateAccounts.Facts.{fact_is_valid}
use mitum_currency.CreateAccounts.Valid.{IsCreateAccountsFact, IsCreateAccountsFact-iff}
use mitum_currency.Examples.{net, ann}
use mitum_currency.CreateAccounts.Deltas.{create_accounts-delta}
use mitum_currency.Examples.{
  eve_opens, api, mcc, amount_of, address_of, keys_of, eve, pool, get_state, get_state-ReadsFresh,
  get_state-ReadsPlainAccounts,
}
use mitum_currency.Design
use mitum_currency.CurrencyId
use mitum_currency.Items

abbrev emitted : List (State api)
emitted =
    plain_state (
      some (
        account_value (record {
          hash = (address_of eve ++ bytes ":mca") ++ address_of eve;
          address = address_of eve;
          keys = keys_of eve;
        })))
    ∷ amount_state (record { state = none; cid = mcc; add = int (pos 30); fee = int (pos 0) })
    ∷ amount_state (record {
      state = some (amount_value (amount_of 100));
      cid = mcc;
      add = int (negsuc 31);
      fee = int (pos 2);
    })
    ∷ []

create_accounts-delta_example :
    (delta mcc emitted +ℤ fee_total mcc emitted ≡ pos 0)
    × (fee_total mcc emitted ≡ charges_total mcc (some pool) (amount_of 30 ∷ []))
unfolding pre_process process CreateAccounts.items_pre_process CreateAccounts.item_pre_process
    CreateAccounts.check_minimums CreateAccounts.new_account_min_balance
    CreateAccounts.target_balances CreateAccounts.items_process CreateAccounts.item_process
    State.exists_state State.check_exists_state State.not_exists_state State.new_amount_state
    State.state_balance_value State.state_keys_value State.load_state_account_value
    State.set_state_account_value State.set_value State.value_of State.add_amount State.sub_amount
    State.add_fee Fees.calculate_items_fee Fees.require_items Fees.require_amounts
    Fees.require_amount Fees.require Fees.check_enough_balance Fees.collect_balances
    Fees.check_fact_signs_by_state Pool.feeer Pool.policy Pool.get Pool.exists Feeer.fee Big.is_zero
    Big.over_zero Big.add Big.sub Big.compare_big Keys.check_threshold Keys.sum_weights
    Keys.find_key Keys.new_address_from_keys Keys.new_account_from_keys Keys.new_account
    Keys.account_bytes Keys.address_is_valid Keys.is_blank Keys.keys_is_valid Keys.check_keys
    Keys.key_is_valid Keys.contains_text Keys.total_weight Keys.generate_hash Keys.keys_bytes
    Keys.concat_keys Keys.key_bytes Keys.sort_keys sort_by bytes_lt insert_by
    StateKey.state_key_account StateKey.state_key_balance StateKey.state_balance_key_prefix
    StateKey.state_address_key_prefix ◌+ℤ◌ ◌-ℤ◌ Emission.credit Emission.debit
    Fees.Required.all_amounts
create_accounts-delta_example =
    create_accounts-delta get_state get_state-ReadsFresh get_state-ReadsPlainAccounts mcc
      (some pool) eve_opens refl refl

-- The operation of the test with the hash that its fact has.
abbrev signed_fact : CreateAccountsFact net
signed_fact = record {
  h =
      (1 ∷ [])
      ++ ((address_of ann ++ bytes ":mca")
          ++ ((((eve ++ (100 ∷ [])) ++ []) ++ (100 ∷ []) ++ ((30 ∷ []) ++ mcc)) ++ []));
  token = 1 ∷ [];
  sender = address_of ann;
  items = record { kind = single_amount; keys = keys_of eve; amounts = amount_of 30 ∷ [] } ∷ [];
}

IsCreateAccountsFact-iff_example :
    (fact_is_valid signed_fact ≡ ok tt) ↔ IsCreateAccountsFact signed_fact
IsCreateAccountsFact-iff_example = IsCreateAccountsFact-iff signed_fact

-- The fact is a valid one.
signed_fact_ok : fact_is_valid signed_fact ≡ ok tt
unfolding fact_is_valid Keys.address_is_valid Keys.keys_is_valid Keys.check_keys Keys.key_is_valid
    Keys.contains_text Keys.total_weight Keys.generate_hash Items.amounts_are_valid
    Design.amount_is_valid CurrencyId.is_valid Big.over_zero Items.kind_is_valid
    Keys.new_address_from_keys Items.amounts_bytes
signed_fact_ok = refl
