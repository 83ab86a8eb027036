-- ===== src/Genesis/Tests.antt =====
-- currency/genesis_currencies_process.go: runs.
use mitum_currency.Prelude.{Bool, false, some, none, List, [], ◌∷◌, ◌++◌, refl, ok, Result}
use mitum_currency.Prelude.Bytes.{Bytes, bytes, bytes_eq_instance}
use mitum_currency.Keys
use mitum_currency.Keys.Sorting.{sort_by, insert_by, bytes_lt}
use mitum_currency.StateKey
use mitum_currency.State
use mitum_currency.State.{
  State, plain_state, amount_state, account_value, amount_value, design_value,
}
use mitum_currency.Big.{int}
use mitum_currency.Prelude.Int.{pos}
use mitum_currency.Genesis
use mitum_currency.Genesis.{GenesisCurrenciesFact, process}
use mitum_currency.Genesis.Emits.{IsGenesis, process-IsGenesis}
use mitum_currency.Examples.{net, api, mcc, ann, amount_of, keys_of, pool_design}

abbrev nothing : Bytes → Result (State api × Bool)
nothing k = ok (plain_state none, false)

abbrev first_fact : GenesisCurrenciesFact net
first_fact = record {
  h = [];
  token = 1 ∷ [];
  genesis_node_key = ann;
  keys = keys_of ann;
  cs = pool_design ∷ [];
}

abbrev emitted : List (State api)
emitted =
    plain_state (
      some (
        account_value (record {
          hash = (keys_of ann).h ++ bytes ":mca" ++ (keys_of ann).h;
          address = (keys_of ann).h;
          keys = keys_of ann;
        })))
    ∷ amount_state (record {
      state = some (amount_value (amount_of 1000));
      cid = mcc;
      add = int (pos 0);
      fee = int (pos 0);
    })
    ∷ plain_state (some (design_value pool_design))
    ∷ []

process-IsGenesis_example : IsGenesis nothing first_fact emitted
unfolding process Genesis.find_states Genesis.set_states State.not_exists_state
    State.new_amount_state State.set_state_account_value State.set_state_balance_value
    State.set_state_currency_design_value State.set_value Keys.new_address_from_keys
    Keys.new_account_from_keys Keys.new_account Keys.account_bytes Keys.address_is_valid
    Keys.is_blank Keys.keys_is_valid Keys.check_keys Keys.key_is_valid Keys.contains_text
    Keys.total_weight Keys.generate_hash Keys.keys_bytes Keys.concat_keys Keys.key_bytes
    Keys.sort_keys sort_by bytes_lt insert_by StateKey.state_key_account StateKey.state_key_balance
    StateKey.state_balance_key_prefix StateKey.state_address_key_prefix
    StateKey.state_key_currency_design
process-IsGenesis_example = process-IsGenesis nothing first_fact refl
