-- ===== src/Transfers/Tests.antt =====
-- currency/transfers_process.go: runs.
use mitum_currency.Prelude.{some, List, [], ◌∷◌, ◌≡◌, refl}
use mitum_currency.Prelude.Int.{pos, negsuc, ◌+ℤ◌, ◌-ℤ◌}
use mitum_currency.Big
use mitum_currency.Big.{int}
use mitum_currency.StateKey
use mitum_currency.Keys
use mitum_currency.Feeer
use mitum_currency.State
use mitum_currency.State.{State, amount_state, amount_value}
use mitum_currency.Pool
use mitum_currency.Fees
use mitum_currency.Fees.Required
use mitum_currency.Fees.Required.{charges_total}
use mitum_currency.Emission
use mitum_currency.Emission.Deltas.{delta, fee_total}
use mitum_currency.Transfers
use mitum_currency.Transfers.{Transfers, TransfersProcessor, TransfersFact, pre_process, process}
use mitum_currency.Items.{base_item}
use mitum_currency.Transfers.Facts.{fact_is_valid}
use mitum_currency.Transfers.Valid.{IsTransfersFact, IsTransfersFact-iff}
use mitum_currency.Transfers.Deltas.{transfers-delta}
use mitum_currency.Prelude.{ok, ◌++◌, ◌↔◌}
use mitum_currency.Prelude.Bytes.{bytes}
use mitum_currency.Examples.{
  ann, bob, net, address_of, ann_to_bob, api, mcc, amount_of, pool, get_state, get_state-ReadsFresh,
}
use mitum_currency.Design
use mitum_currency.CurrencyId

abbrev emitted : List (State api)
emitted =
    amount_state (record {
      state = some (amount_value (amount_of 7));
      cid = mcc;
      add = int (pos 30);
      fee = int (pos 0);
    })
    ∷ amount_state (record {
      state = some (amount_value (amount_of 100));
      cid = mcc;
      add = int (negsuc 31);
      fee = int (pos 2);
    })
    ∷ []

transfers-delta_example :
    (delta mcc emitted +ℤ fee_total mcc emitted ≡ pos 0)
    × (fee_total mcc emitted ≡ charges_total mcc (some pool) (amount_of 30 ∷ []))
unfolding pre_process process Transfers.items_pre_process Transfers.item_pre_process
    Transfers.receiver_balances Transfers.items_process State.exists_state State.check_exists_state
    State.new_amount_state State.state_balance_value State.state_keys_value
    State.load_state_account_value State.value_of State.add_amount State.sub_amount State.add_fee
    Fees.calculate_items_fee Fees.require_items Fees.require_amounts Fees.require_amount
    Fees.require Fees.check_enough_balance Fees.collect_balances Fees.check_fact_signs_by_state
    Pool.feeer Pool.get Pool.exists Feeer.fee Big.is_zero Big.over_zero Big.add Big.sub
    Big.compare_big Keys.check_threshold Keys.sum_weights Keys.find_key StateKey.state_key_account
    StateKey.state_key_balance StateKey.state_balance_key_prefix StateKey.state_address_key_prefix
    ◌+ℤ◌ ◌-ℤ◌ Emission.credit Emission.debit Fees.Required.all_amounts
transfers-delta_example =
    transfers-delta get_state get_state-ReadsFresh mcc (some pool) ann_to_bob refl refl

-- The operation of the test as it is decoded, with the hash that its fact has.
abbrev signed_fact : TransfersFact net
signed_fact = record {
  h =
      (1 ∷ [])
      ++ ((address_of ann ++ bytes ":mca")
          ++ (((address_of bob ++ bytes ":mca") ++ ((30 ∷ []) ++ mcc)) ++ []));
  token = 1 ∷ [];
  sender = address_of ann;
  items = record { kind = base_item; receiver = address_of bob; amounts = amount_of 30 ∷ [] } ∷ [];
}

IsTransfersFact-iff_example : (fact_is_valid signed_fact ≡ ok tt) ↔ IsTransfersFact signed_fact
IsTransfersFact-iff_example = IsTransfersFact-iff signed_fact

-- The fact is a valid one.
signed_fact_ok : fact_is_valid signed_fact ≡ ok tt
unfolding fact_is_valid Keys.address_is_valid Keys.contains_text Design.amount_is_valid
    CurrencyId.is_valid Big.over_zero
signed_fact_ok = refl
