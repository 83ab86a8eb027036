-- ===== src/CreateAccounts.antt =====
-- currency/create_accounts.go, currency/create_accounts_item.go,
-- currency/create_accounts_single_amount.go, currency/create_accounts_multi_amounts.go and
-- currency/create_accounts_process.go: new accounts, opened with amounts of the sender.
pub mod Deltas
pub mod Nonneg
pub mod Facts
pub mod Valid
mod Tests
use mitum_currency.Prelude.{
  ℕ, Bool, true, false, not, Option, none, some, List, [], ◌∷◌, ◌++◌, map, Result, ok, err, plain,
  reason, unknown_currency, under_minimum, ◌>>=◌, ◌>>◌, guard, as_reason,
}
use mitum_currency.Prelude.Bytes.{Bytes, bytes_eq_instance}
use mitum_currency.Prelude.Map.{Map, insert}
use mitum_currency.Mitum.{Mitum}
use mitum_currency.CurrencyId.{CurrencyId}
use mitum_currency.StateKey.{Address, state_key_account, state_key_balance}
use mitum_currency.Big
use mitum_currency.Big.{Big, compare_big, is_lt}
use mitum_currency.Keys.{Keys, new_address_from_keys, new_account_from_keys}
use mitum_currency.Design.{Amount}
use mitum_currency.State.{
  StateApi, State, AmountState, new_amount_state, not_exists_state, check_exists_state,
  set_state_account_value,
}
use mitum_currency.Pool
use mitum_currency.Pool.{CurrencyPool}
use mitum_currency.Emission.{credit, debit}
use mitum_currency.Fees.{
  Required, calculate_items_fee, check_enough_balance, check_fact_signs_by_state,
}
use mitum_currency.Items.{ItemKind}

-- `CreateAccountsItemSingleAmount` and `CreateAccountsItemMultiAmounts` over
-- `BaseCreateAccountsItem`
pub record CreateAccountsItem (m : Mitum) : Type 0 where
  pub kind : ItemKind
  pub keys : Keys m
  pub amounts : List Amount

pub record CreateAccountsFact (m : Mitum) : Type 0 where
  pub h : m.Hash
  pub token : Bytes
  pub sender : Address
  pub items : List (CreateAccountsItem m)

pub record CreateAccounts (m : Mitum) : Type 0 where
  pub fact : CreateAccountsFact m
  pub signs : List m.Publickey
  pub memo : Bytes

-- `Targets`
unfoldable pub targets : {m : Mitum} → List (CreateAccountsItem m) → Result (List Address)
targets [] = ok []
targets (it ∷ items) = do a ← new_address_from_keys it.keys; rest ← targets items; ok (a ∷ rest)

-- What `CreateAccountsItemProcessor` keeps: `item`, `ns` and `nb`.
pub record ItemProcessor {m : Mitum} (api : StateApi m) : Type 0 where
  pub item : CreateAccountsItem m
  pub ns : State api
  pub nb : Map CurrencyId (AmountState api)

pub record CreateAccountsProcessor {m : Mitum} (api : StateApi m) : Type 0 where
  pub op : CreateAccounts m
  pub sb : Map CurrencyId (AmountState api)
  pub ns : List (ItemProcessor api)
  pub required : Required

module _ {m : Mitum} {api : StateApi m} where
  -- The minimum balance of the policy; without a pool the policy is the zero value, whose minimum
  -- is a nil `Big`.
  unfoldable pub new_account_min_balance : Option (CurrencyPool api) → CurrencyId → Result Big
  new_account_min_balance none cid = ok Big.nil
  new_account_min_balance (some p) cid = elim (Pool.policy p cid) [
    | none ↦ err (plain unknown_currency)
    | some po ↦ ok po.new_account_min_balance
  ]

  -- The first loop of `CreateAccountsItemProcessor.PreProcess`.
  unfoldable pub check_minimums : Option (CurrencyPool api) → List Amount → Result (Unit {0})
  unfolding new_account_min_balance
  check_minimums cp [] = ok tt
  check_minimums cp (am ∷ ams) = do
    least ← new_account_min_balance cp am.cid
    o ← compare_big am.big least
    guard (not (is_lt o)) (plain under_minimum)
    check_minimums cp ams

  -- The second loop, which fills the map `nb`.
  unfoldable pub target_balances :
      (Bytes → Result (State api × Bool))
      → Address
      → Map CurrencyId (AmountState api)
      → List Amount
      → Result (Map CurrencyId (AmountState api))
  target_balances get_state target nb [] = ok nb
  target_balances get_state target nb (am ∷ ams) = do
    r ← get_state (state_key_balance target am.cid)
    target_balances get_state target (insert am.cid (new_amount_state r.0 am.cid) nb) ams

  unfoldable pub item_pre_process :
      Option (CurrencyPool api)
      → (Bytes → Result (State api × Bool))
      → CreateAccountsItem m
      → Result (ItemProcessor api)
  item_pre_process cp get_state item = do
    check_minimums cp item.amounts
    target ← new_address_from_keys item.keys
    ns ← not_exists_state (state_key_account target) get_state
    nb ← target_balances get_state target [] item.amounts
    ok (record { item = item; ns = ns; nb = nb })

  unfoldable pub item_process : ItemProcessor api → Result (List (State api))
  item_process opp = do
    nac ← new_account_from_keys opp.item.keys
    st ← set_state_account_value opp.ns nac
    sts ← credit opp.nb opp.item.amounts
    ok (st ∷ sts)

  unfoldable pub items_pre_process :
      Option (CurrencyPool api)
      → (Bytes → Result (State api × Bool))
      → List (CreateAccountsItem m)
      → Result (List (ItemProcessor api))
  items_pre_process cp get_state [] = ok []
  items_pre_process cp get_state (item ∷ items) = do
    c ← as_reason (item_pre_process cp get_state item)
    rest ← items_pre_process cp get_state items
    ok (c ∷ rest)

  unfoldable pub pre_process :
      Option (CurrencyPool api)
      → (Bytes → Result (State api × Bool))
      → CreateAccounts m
      → Result (CreateAccountsProcessor api)
  pre_process cp get_state op = do
    check_exists_state (state_key_account op.fact.sender) get_state
    required ← as_reason (calculate_items_fee cp (map (λ it. it.amounts) op.fact.items))
    sb ← check_enough_balance op.fact.sender required get_state
    ns ← items_pre_process cp get_state op.fact.items
    as_reason (check_fact_signs_by_state op.fact.sender op.signs get_state)
    ok (record { op = op; sb = sb; ns = ns; required = required })

  unfoldable pub items_process : List (ItemProcessor api) → Result (List (State api))
  items_process [] = ok []
  items_process (c ∷ ns) = do s ← as_reason (item_process c); sts ← items_process ns; ok (s ++ sts)

  -- `Process`, up to the states that it hands to `setState` under the fact's hash.
  unfoldable pub process : CreateAccountsProcessor api → Result (List (State api))
  process opp = do sts ← items_process opp.ns; rest ← debit opp.sb opp.required; ok (sts ++ rest)
