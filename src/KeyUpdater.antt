-- ===== src/KeyUpdater.antt =====
-- currency/keyupdater.go and currency/keyupdater_process.go: new keys for an account, against a fee.
pub mod Deltas
pub mod Facts
mod Tests
use mitum_currency.Prelude.{
  Bool, true, false, not, Option, none, some, List, [], ◌∷◌, Result, ok, err, plain, reason, panic,
  unknown_currency, same_keys, insufficient_balance, ◌>>=◌, ◌>>◌, guard, as_reason,
}
use mitum_currency.Prelude.Bytes.{Bytes}
use mitum_currency.Mitum.{Mitum}
use mitum_currency.CurrencyId.{CurrencyId}
use mitum_currency.StateKey.{Address, state_key_account, state_key_balance}
use mitum_currency.Big.{Big, zero_big, compare_big, is_lt}
use mitum_currency.Feeer
use mitum_currency.Feeer.{Feeer}
use mitum_currency.Keys.{Keys, keys_equal}
use mitum_currency.State.{
  StateApi, State, AmountState, amount_state, new_amount_state, exists_state, state_keys_value,
  state_balance_value, set_state_keys_value, sub_amount, add_fee,
}
use mitum_currency.Pool
use mitum_currency.Pool.{CurrencyPool}
use mitum_currency.Fees.{check_fact_signs_by_state}

pub record KeyUpdaterFact (m : Mitum) : Type 0 where
  pub h : m.Hash
  pub token : Bytes
  pub target : Address
  pub keys : Keys m
  pub currency : CurrencyId

pub record KeyUpdater (m : Mitum) : Type 0 where
  pub fact : KeyUpdaterFact m
  pub signs : List m.Publickey
  pub memo : Bytes

pub record KeyUpdaterProcessor {m : Mitum} (api : StateApi m) : Type 0 where
  pub op : KeyUpdater m
  pub sa : State api
  pub sb : AmountState api
  pub fee : Big

module _ {m : Mitum} {api : StateApi m} where
  -- `op.cp.Feeer(...)`: without a pool the call takes a lock through a nil pointer.
  unfoldable pub find_feeer : Option (CurrencyPool api) → CurrencyId → Result Feeer
  find_feeer none cid = err panic
  find_feeer (some p) cid = elim (Pool.feeer p cid) [
    | none ↦ err (reason unknown_currency)
    | some feeer ↦ ok feeer
  ]

  unfoldable pub pre_process :
      Option (CurrencyPool api)
      → (Bytes → Result (State api × Bool))
      → KeyUpdater m
      → Result (KeyUpdaterProcessor api)
  unfolding find_feeer
  pre_process cp get_state op = do
    sa ← exists_state (state_key_account op.fact.target) get_state
    ks ← as_reason (state_keys_value sa)
    guard (not (keys_equal ks op.fact.keys)) (reason same_keys)
    st ← exists_state (state_key_balance op.fact.target op.fact.currency) get_state
    let sb = new_amount_state st op.fact.currency
    as_reason (check_fact_signs_by_state op.fact.target op.signs get_state)
    feeer ← find_feeer cp op.fact.currency
    fee ← as_reason (Feeer.fee feeer zero_big)
    b ← as_reason (state_balance_value (amount_state sb))
    o ← compare_big b.big fee
    guard (not (is_lt o)) (reason insufficient_balance)
    ok (record { op = op; sa = sa; sb = sb; fee = fee })

  -- `Process`, up to the states that it hands to `setState` under the fact's hash.
  unfoldable pub process : KeyUpdaterProcessor api → Result (List (State api))
  process opp = do
    s ← sub_amount opp.sb opp.fee
    t ← add_fee s opp.fee
    st ← set_state_keys_value opp.sa opp.op.fact.keys
    ok (st ∷ amount_state t ∷ [])
