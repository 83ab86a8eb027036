-- ===== src/State.antt =====
-- currency/state.go and currency/amount_state.go: values in the state database, states, and the
-- states of balances, which collect what a block adds to a balance and charges as a fee.
pub mod Merging
mod Tests
use mitum_currency.Prelude.{
  Bool, true, false, Option, none, some, Result, ok, err, plain, panic, reason, not_found,
  not_exist, wrong_value, already_exist, ◌>>=◌, ◌>>◌, guard, List, [], ◌∷◌, ◌≡◌, not,
}
use mitum_currency.Prelude.Bytes.{Bytes}
use mitum_currency.Mitum.{Mitum}
use mitum_currency.CurrencyId.{CurrencyId}
use mitum_currency.Big
use mitum_currency.Big.{Big, zero_big, over_nil}
use mitum_currency.Keys.{Account, Keys, new_account_from_keys, set_keys}
use mitum_currency.Design.{Amount, CurrencyDesign, with_big, new_zero_amount}

-- What `Value().Interface()` may hold.
pub data Value (m : Mitum) : Type 0 where
  account_value : Account m → Value m
  amount_value : Amount → Value m
  design_value : CurrencyDesign → Value m
  other_value : Value m

-- `state.State` of mitum's base/state: what the program reads and writes of it. `set_value` stands
-- for `NewHintedValue` and `SetValue`; a value that was set is the one that is read.
pub record StateApi (m : Mitum) : Type 1 where
  pub Base : Type 0
  pub value : Base → Option (Value m)
  pub set_value : Base → Value m → Result Base
  pub value-set_value : (s t : Base) (v : Value m) → set_value s v ≡ ok t → value t ≡ some v

pub record AmountState {m : Mitum} (api : StateApi m) : Type 0 where
  pub state : api.Base
  pub cid : CurrencyId
  pub add : Big
  pub fee : Big

-- The implementations of `state.State` that meet here: mitum's own, and `AmountState`.
pub data State {m : Mitum} (api : StateApi m) : Type 0 where
  plain_state : api.Base → State api
  amount_state : AmountState api → State api

-- The account that `SetStateKeysValue` changes: the one there, or a new one of these keys.
unfoldable pub account_or_new : {m : Mitum} → Result (Account m) → Keys m → Result (Account m)
account_or_new (ok a) v = ok a
account_or_new (err (plain not_found)) v = new_account_from_keys v
account_or_new (err e) v = err e

-- The balance that `Merge` starts from: zero where there is none yet.
unfoldable pub balance_or_zero : Result Amount → CurrencyId → Result Amount
balance_or_zero (ok am) cid = ok am
balance_or_zero (err (plain not_found)) cid = ok (new_zero_amount cid)
balance_or_zero (err e) cid = err e

module _ {m : Mitum} {api : StateApi m} where
  unfoldable pub new_amount_state : State api → CurrencyId → AmountState api
  new_amount_state (amount_state sst) cid = sst
  new_amount_state (plain_state st) cid = record {
    state = st;
    cid = cid;
    add = zero_big;
    fee = zero_big;
  }

  -- `Value` and `SetValue` of either implementation.
  unfoldable pub value_of : State api → Option (Value m)
  value_of (plain_state st) = api.value st
  value_of (amount_state st) = api.value st.state

  unfoldable pub set_value : State api → Value m → Result (State api)
  set_value (plain_state st) v = do s ← api.set_value st v; ok (plain_state s)
  set_value (amount_state st) v = do
    s ← api.set_value st.state v
    ok (amount_state (record st { state = s }))

  -- `LoadStateAccountValue`
  unfoldable pub load_state_account_value : State api → Result (Account m)
  unfolding value_of
  load_state_account_value st = elim (value_of st) [
    | none ↦ err (plain not_found)
    | some v ↦ elim v [ account_value ac ↦ ok ac | _ ↦ err (plain wrong_value) ]
  ]

  unfoldable pub set_state_account_value : State api → Account m → Result (State api)
  unfolding set_value
  set_state_account_value st v = set_value st (account_value v)

  unfoldable pub state_keys_value : State api → Result (Keys m)
  unfolding load_state_account_value
  state_keys_value st = do ac ← load_state_account_value st; ok ac.keys

  unfoldable pub set_state_keys_value : State api → Keys m → Result (State api)
  unfolding set_value load_state_account_value account_or_new
  set_state_keys_value st v = do
    ac ← account_or_new (load_state_account_value st) v
    uac ← set_keys ac v
    set_value st (account_value uac)

  unfoldable pub state_balance_value : State api → Result Amount
  unfolding value_of
  state_balance_value st = elim (value_of st) [
    | none ↦ err (plain not_found)
    | some v ↦ elim v [ amount_value am ↦ ok am | _ ↦ err (plain wrong_value) ]
  ]

  unfoldable pub set_state_balance_value : State api → Amount → Result (State api)
  unfolding set_value
  set_state_balance_value st v = set_value st (amount_value v)

  unfoldable pub state_currency_design_value : State api → Result CurrencyDesign
  unfolding value_of
  state_currency_design_value st = elim (value_of st) [
    | none ↦ err (plain not_found)
    | some v ↦ elim v [ design_value de ↦ ok de | _ ↦ err (plain wrong_value) ]
  ]

  unfoldable pub set_state_currency_design_value : State api → CurrencyDesign → Result (State api)
  unfolding set_value
  set_state_currency_design_value st v = set_value st (design_value v)

  -- `AddFee`, `Add`, `Sub`
  unfoldable pub add_fee : AmountState api → Big → Result (AmountState api)
  add_fee st f = do g ← Big.add st.fee f; ok (record st { fee = g })

  unfoldable pub add_amount : AmountState api → Big → Result (AmountState api)
  add_amount st a = do b ← Big.add st.add a; ok (record st { add = b })

  unfoldable pub sub_amount : AmountState api → Big → Result (AmountState api)
  sub_amount st a = do b ← Big.sub st.add a; ok (record st { add = b })

  -- What is collected starts at zero again.
  unfoldable pub clear : AmountState api → api.Base → AmountState api
  clear st cleared = record st { state = cleared; add = zero_big; fee = zero_big }

  -- `base.(AmountState)` panics on any other state.
  unfoldable pub fee_of_base : State api → Result Big
  fee_of_base (amount_state st) = ok st.fee
  fee_of_base (plain_state st) = err panic

  unfoldable pub merge : AmountState api → State api → Result (State api)
  unfolding balance_or_zero state_balance_value fee_of_base add_fee set_state_balance_value
  merge st base = do
    am ← balance_or_zero (state_balance_value base) st.cid
    f ← fee_of_base base
    st' ← add_fee st f
    b ← Big.add am.big st.add
    set_state_balance_value (amount_state st') (with_big am b)

  -- `checkExistsState`, `existsState` and `notExistsState`, over the function that finds a state.
  unfoldable pub exists_state : Bytes → (Bytes → Result (State api × Bool)) → Result (State api)
  exists_state k get_state = do r ← get_state k; guard r.1 (reason not_exist); ok r.0

  unfoldable pub check_exists_state :
      Bytes → (Bytes → Result (State api × Bool)) → Result (Unit {0})
  check_exists_state k get_state = do r ← get_state k; guard r.1 (reason not_exist)

  unfoldable pub not_exists_state : Bytes → (Bytes → Result (State api × Bool)) → Result (State api)
  not_exists_state k get_state = do r ← get_state k; guard (not r.1) (reason already_exist); ok r.0
