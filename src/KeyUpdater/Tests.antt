-- ===== src/KeyUpdater/Tests.antt =====
-- currency/keyupdater_process.go: runs.
use mitum_currency.Prelude.{some, List, [], ◌∷◌, ok, ◌≡◌, refl}
use mitum_currency.Prelude.Int.{pos, negsuc, ◌+ℤ◌, ◌-ℤ◌}
use mitum_currency.Prelude.Bytes.{bytes_eq_instance}
use mitum_currency.Prelude.Sums.{at_key}
use mitum_currency.StateKey
use mitum_currency.Keys
use mitum_currency.Keys.Sorting
use mitum_currency.Big
use mitum_currency.Big.{int, zero_big}
use mitum_currency.Feeer
use mitum_currency.Feeer.{Feeer}
use mitum_currency.State
use mitum_currency.State.{State, plain_state, amount_state, amount_value, account_value}
use mitum_currency.Pool
use mitum_currency.Fees
use mitum_currency.Emission.Deltas.{delta, fee_total}
use mitum_currency.KeyUpdater
use mitum_currency.KeyUpdater.{KeyUpdater, find_feeer}
use mitum_currency.KeyUpdater.Deltas.{key_updater-delta}
use mitum_currency.Examples.{
  net, api, mcc, amount_of, address_of, keys_of, ann, eve, pool, get_state, get_state-ReadsFresh,
  get_state-ReadsPlainAccounts,
}

abbrev new_keys_of_ann : KeyUpdater net
new_keys_of_ann = record {
  fact = record {
    h = [];
    token = 1 ∷ [];
    target = address_of ann;
    keys = keys_of eve;
    currency = mcc;
  };
  signs = ann ∷ [];
  memo = [];
}

abbrev emitted : List (State api)
emitted =
    plain_state
      (some (account_value (record { hash = ann; address = address_of ann; keys = keys_of eve })))
    ∷ amount_state (record {
      state = some (amount_value (amount_of 100));
      cid = mcc;
      add = int (negsuc 1);
      fee = int (pos 2);
    })
    ∷ []

key_updater-delta_example :
    (delta mcc emitted +ℤ fee_total mcc emitted ≡ pos 0)
    × (fee_total mcc emitted ≡ at_key mcc mcc (pos 2))
    × ((feeer : Feeer) × (find_feeer (some pool) mcc ≡ ok feeer)
        × (Feeer.fee feeer zero_big ≡ ok (int (pos 2))))
unfolding State.exists_state State.check_exists_state State.not_exists_state State.new_amount_state
    State.state_balance_value State.state_keys_value State.load_state_account_value
    State.set_state_account_value State.set_value State.value_of State.add_amount State.sub_amount
    State.add_fee Fees.check_fact_signs_by_state Pool.feeer Pool.policy Pool.get Pool.exists
    Feeer.fee Big.is_zero Big.over_zero Big.add Big.sub Big.compare_big Keys.check_threshold
    Keys.sum_weights Keys.find_key Keys.new_address_from_keys Keys.new_account_from_keys
    Keys.new_account Keys.account_bytes Keys.address_is_valid Keys.is_blank Keys.keys_is_valid
    Keys.check_keys Keys.key_is_valid Keys.contains_text Keys.total_weight Keys.generate_hash
    Keys.keys_bytes Keys.concat_keys Keys.key_bytes Keys.sort_keys StateKey.state_key_account
    StateKey.state_key_balance StateKey.state_balance_key_prefix StateKey.state_address_key_prefix
    ◌+ℤ◌ ◌-ℤ◌ State.set_state_keys_value State.account_or_new Keys.set_keys Keys.keys_equal
    Keys.equal_pointwise Keys.key_equal KeyUpdater.pre_process KeyUpdater.process
    KeyUpdater.find_feeer Sorting.sort_by Sorting.insert_by Sorting.bytes_lt
key_updater-delta_example =
    key_updater-delta get_state get_state-ReadsFresh get_state-ReadsPlainAccounts mcc (some pool)
      new_keys_of_ann refl refl
