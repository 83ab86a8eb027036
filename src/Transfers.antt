-- ===== src/Transfers.antt =====
-- currency/transfers.go, currency/transfers_item.go, currency/transfers_single_amount.go,
-- currency/transfers_multi_amounts.go and currency/transfers_process.go: the transfer of amounts
-- to existing accounts.
pub mod Deltas
pub mod Nonneg
pub mod Facts
pub mod Valid
mod Tests
use mitum_currency.Prelude.{
  ℕ, Bool, true, false, not, Option, none, some, List, [], ◌∷◌, ◌++◌, map, if◌then◌else◌, ltb, eqb,
  length, Result, ok, err, plain, reason, panic, unknown_currency, invalid, duplicated, external,
  ◌>>=◌, ◌>>◌, guard, as_reason, ◌==◌,
}
use mitum_currency.Prelude.Bytes.{Bytes, bytes_eq_instance}
use mitum_currency.Prelude.Map.{Map, lookup, insert}
use mitum_currency.Mitum.{Mitum}
use mitum_currency.CurrencyId.{CurrencyId}
use mitum_currency.StateKey.{
  Address, state_key_account, state_key_balance, state_address_key_prefix,
}
use mitum_currency.Big.{Big, over_zero}
use mitum_currency.Keys.{address_is_valid}
use mitum_currency.Design.{Amount, amount_is_valid}
use mitum_currency.State.{
  StateApi, State, AmountState, amount_state, new_amount_state, exists_state, check_exists_state,
  add_amount, sub_amount, add_fee,
}
use mitum_currency.Items.{ItemKind}
use mitum_currency.Pool
use mitum_currency.Pool.{CurrencyPool}
use mitum_currency.Emission.{credit, debit}
use mitum_currency.Fees.{
  Required, calculate_items_fee, check_enough_balance, check_fact_signs_by_state,
}

pub record TransfersItem : Type 0 where
  pub kind : ItemKind
  pub receiver : Address
  pub amounts : List Amount

pub record TransfersFact (m : Mitum) : Type 0 where
  pub h : m.Hash
  pub token : Bytes
  pub sender : Address
  pub items : List TransfersItem

-- `Transfers` with its `BaseOperation`: the fact and the signers of its fact signs.
pub record Transfers (m : Mitum) : Type 0 where
  pub fact : TransfersFact m
  pub signs : List m.Publickey
  pub memo : Bytes

module _ {m : Mitum} {api : StateApi m} where
  -- The loop of `TransfersItemProcessor.PreProcess`, which fills the map `rb`.
  unfoldable pub receiver_balances :
      Option (CurrencyPool api)
      → (Bytes → Result (State api × Bool))
      → Address
      → Map CurrencyId (AmountState api)
      → List Amount
      → Result (Map CurrencyId (AmountState api))
  receiver_balances cp get_state receiver rb [] = ok rb
  receiver_balances cp get_state receiver rb (am ∷ ams) = do
    elim cp [ none ↦ ok tt | some p ↦ guard (Pool.exists p am.cid) (plain unknown_currency) ]
    r ← get_state (state_key_balance receiver am.cid)
    receiver_balances cp get_state receiver (insert am.cid (new_amount_state r.0 am.cid) rb) ams

  unfoldable pub item_pre_process :
      Option (CurrencyPool api)
      → (Bytes → Result (State api × Bool))
      → TransfersItem
      → Result (Map CurrencyId (AmountState api))
  unfolding receiver_balances
  item_pre_process cp get_state item = do
    st ← exists_state (state_key_account item.receiver) get_state
    receiver_balances cp get_state item.receiver [] item.amounts

-- `TransfersProcessor`; an item's processor is its item and its map `rb`.
pub record TransfersProcessor {m : Mitum} (api : StateApi m) : Type 0 where
  pub op : Transfers m
  pub sb : Map CurrencyId (AmountState api)
  pub rb : List (TransfersItem × Map CurrencyId (AmountState api))
  pub required : Required

module _ {m : Mitum} {api : StateApi m} where
  unfoldable pub items_pre_process :
      Option (CurrencyPool api)
      → (Bytes → Result (State api × Bool))
      → List TransfersItem
      → Result (List (TransfersItem × Map CurrencyId (AmountState api)))
  unfolding item_pre_process
  items_pre_process cp get_state [] = ok []
  items_pre_process cp get_state (item ∷ items) = do
    rb ← as_reason (item_pre_process cp get_state item)
    rest ← items_pre_process cp get_state items
    ok ((item, rb) ∷ rest)

  unfoldable pub pre_process :
      Option (CurrencyPool api)
      → (Bytes → Result (State api × Bool))
      → Transfers m
      → Result (TransfersProcessor api)
  pre_process cp get_state op = do
    check_exists_state (state_key_account op.fact.sender) get_state
    required ← as_reason (calculate_items_fee cp (map (λ it. it.amounts) op.fact.items))
    sb ← check_enough_balance op.fact.sender required get_state
    rb ← items_pre_process cp get_state op.fact.items
    check_fact_signs_by_state op.fact.sender op.signs get_state
    ok (record { op = op; sb = sb; rb = rb; required = required })

  unfoldable pub items_process :
      List (TransfersItem × Map CurrencyId (AmountState api)) → Result (List (State api))
  unfolding credit
  items_process [] = ok []
  items_process ((item, rb) ∷ rest) = do
    s ← as_reason (credit rb item.amounts)
    sts ← items_process rest
    ok (s ++ sts)

  -- `Process`, up to the states that it hands to `setState` under the fact's hash.
  unfoldable pub process : TransfersProcessor api → Result (List (State api))
  unfolding items_process debit
  process opp = do sts ← items_process opp.rb; rest ← debit opp.sb opp.required; ok (sts ++ rest)
