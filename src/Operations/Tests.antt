-- ===== src/Operations/Tests.antt =====
-- currency/operation_processor.go: runs.
use mitum_currency.Prelude.{
  some, true, inl, inr, Bool-cases, ◌==◌, ◌++◌, List, [], ◌∷◌, ◌≡◌, refl, arith,
}
use mitum_currency.Prelude.Int.{pos, negsuc, ◌+ℤ◌, ◌-ℤ◌}
use mitum_currency.Prelude.Bytes.{bytes_eq_instance}
use mitum_currency.StateKey
use mitum_currency.Keys
use mitum_currency.Feeer
use mitum_currency.Feeer.{fixed_feeer}
use mitum_currency.State
use mitum_currency.Pool
use mitum_currency.Fees
use mitum_currency.Fees.Required
use mitum_currency.Emission
use mitum_currency.Transfers
use mitum_currency.KeyUpdater.{find_feeer}
use mitum_currency.FeeOperation
use mitum_currency.FeeOperation.{fee_amounts}
use mitum_currency.FeeOperation.Deltas.{paid_states}
use mitum_currency.Operations.Conservation.{HasValidFeeers, minted_total}
use mitum_currency.Operations.Block.{HaveReceivers, close-pays, block-conserves}
use mitum_currency.Big
use mitum_currency.Big.{int}
use mitum_currency.State.{State, amount_state, amount_value}
use mitum_currency.Emission.Deltas.{delta, fee_total}
use mitum_currency.Operations
use mitum_currency.Operations.{
  OperationProcessor, Setting, new_processor, set_state, transfers, create_accounts,
  prepared_transfers,
}
use mitum_currency.Operations.Accepted.{accepted, ArePairwiseApart, accepted-ArePairwiseApart}
use mitum_currency.Operations.Collecting.{collected, set_state-collects}
use mitum_currency.Examples.{
  api, mcc, amount_of, pool, pool_design, address_of, bob, get_state, get_state-ReadsFresh,
  get_state-ReadsPlainAccounts, get_state-ReadsPlainDesigns, ann_to_bob, eve_opens,
}

abbrev paying : List (State api)
paying =
    amount_state (record {
      state = some (amount_value (amount_of 100));
      cid = mcc;
      add = int (negsuc 31);
      fee = int (pos 2);
    })
    ∷ []

abbrev before : OperationProcessor
before = record new_processor { fee = (mcc, int (pos 5)) ∷ [] }

set_state-collects_example :
    (collected mcc ((mcc, int (pos 7)) ∷ []) ≡ collected mcc before.fee +ℤ fee_total mcc paying)
    × (paying ≡ paying)
unfolding set_state Operations.collect_fees Big.over_zero Big.add ◌+ℤ◌
set_state-collects_example = set_state-collects mcc before paying (omega arith, tt) refl

abbrev setting : Setting api
setting = record { cp = some pool; pubs = []; threshold = 0; is_set = λ op. true }

accepted-ArePairwiseApart_example : ArePairwiseApart (
    accepted setting get_state new_processor
      (transfers ann_to_bob ∷ create_accounts eve_opens ∷ transfers ann_to_bob ∷ []))
accepted-ArePairwiseApart_example =
    accepted-ArePairwiseApart setting get_state new_processor
      (transfers ann_to_bob ∷ create_accounts eve_opens ∷ transfers ann_to_bob ∷ [])

-- The pool's feeer is valid.
pool-HasValidFeeers : HasValidFeeers (some pool)
unfolding find_feeer Pool.feeer Pool.get Feeer.is_valid Keys.address_is_valid Keys.is_blank
    Big.over_nil
pool-HasValidFeeers cid f e = elim (Bool-cases (mcc == cid)) [
  | inl same ↦
      let shape : pool_design.policy.feeer ≡ f = let g = rw (same, find_feeer) at e in cc in
      rw (← shape)
  | inr other ↦ absurd (let g = rw (other, find_feeer) at e in cc)
]

abbrev handed : List (State api)
handed =
    amount_state (record {
      state = some (amount_value (amount_of 7));
      cid = mcc;
      add = int (pos 30);
      fee = int (pos 0);
    })
    ∷ paying

abbrev paid_out : List (State api)
paid_out =
    amount_state (record {
      state = some (amount_value (amount_of 7));
      cid = mcc;
      add = int (pos 2);
      fee = int (pos 0);
    })
    ∷ []

-- Bob's receiver stands for every fee of the pool.
receivers : HaveReceivers pool ((mcc, int (pos 2)) ∷ [])
unfolding fee_amounts Pool.feeer Pool.get Feeer.receiver
receivers = ((fixed_feeer (address_of bob) (int (pos 2)), address_of bob, refl, refl), tt)

block-conserves_example :
    delta mcc (handed ++ paid_out) ≡ minted_total mcc (transfers ann_to_bob ∷ [])
unfolding Transfers.pre_process Transfers.process Transfers.items_pre_process
    Transfers.item_pre_process Transfers.receiver_balances Transfers.items_process
    State.exists_state State.check_exists_state State.new_amount_state State.state_balance_value
    State.state_keys_value State.load_state_account_value State.value_of State.add_amount
    State.sub_amount State.add_fee Fees.calculate_items_fee Fees.require_items Fees.require_amounts
    Fees.require_amount Fees.require Fees.check_enough_balance Fees.collect_balances
    Fees.check_fact_signs_by_state Pool.feeer Pool.get Pool.exists Feeer.fee Big.is_zero
    Big.over_zero Big.add Big.sub Big.compare_big Keys.check_threshold Keys.sum_weights
    Keys.find_key StateKey.state_key_account StateKey.state_key_balance
    StateKey.state_balance_key_prefix StateKey.state_address_key_prefix ◌+ℤ◌ ◌-ℤ◌ Emission.credit
    Emission.debit Fees.Required.all_amounts Operations.prepare Operations.process
    Operations.process_all Operations.set_state Operations.collect_fees Operations.close
    Operations.is_known FeeOperation.process FeeOperation.pay fee_amounts paid_states Feeer.receiver
block-conserves_example =
    block-conserves setting get_state get_state-ReadsFresh get_state-ReadsPlainAccounts
      get_state-ReadsPlainDesigns pool-HasValidFeeers mcc pool (transfers ann_to_bob ∷ [])
      (prepared_transfers _ ∷ []) (refl, refl, tt) refl receivers refl

close-pays_example : delta mcc paid_out ≡ collected mcc ((mcc, int (pos 2)) ∷ [])
unfolding Transfers.pre_process Transfers.process Transfers.items_pre_process
    Transfers.item_pre_process Transfers.receiver_balances Transfers.items_process
    State.exists_state State.check_exists_state State.new_amount_state State.state_balance_value
    State.state_keys_value State.load_state_account_value State.value_of State.add_amount
    State.sub_amount State.add_fee Fees.calculate_items_fee Fees.require_items Fees.require_amounts
    Fees.require_amount Fees.require Fees.check_enough_balance Fees.collect_balances
    Fees.check_fact_signs_by_state Pool.feeer Pool.get Pool.exists Feeer.fee Big.is_zero
    Big.over_zero Big.add Big.sub Big.compare_big Keys.check_threshold Keys.sum_weights
    Keys.find_key StateKey.state_key_account StateKey.state_key_balance
    StateKey.state_balance_key_prefix StateKey.state_address_key_prefix ◌+ℤ◌ ◌-ℤ◌ Emission.credit
    Emission.debit Fees.Required.all_amounts Operations.prepare Operations.process
    Operations.process_all Operations.set_state Operations.collect_fees Operations.close
    Operations.is_known FeeOperation.process FeeOperation.pay fee_amounts paid_states Feeer.receiver
close-pays_example =
    close-pays get_state get_state-ReadsFresh mcc pool
      (record new_processor { fee = (mcc, int (pos 2)) ∷ [] }) receivers refl
