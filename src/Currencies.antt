-- ===== src/Currencies.antt =====
-- currency/currency_register.go, currency/currency_register_process.go,
-- currency/currency_policy_updater.go and currency/currency_policy_updater_process.go: a new
-- currency with its first balance, and a new policy for a currency, both by the suffrage's signs.
pub mod Minting
pub mod Facts
pub mod Swapping
mod Tests
use mitum_currency.Prelude.{
  ℕ, Bool, true, false, not, Option, none, some, List, [], ◌∷◌, Result, ok, err, plain, reason,
  panic, unknown_currency, already_registered, empty_publickeys, ◌>>=◌, ◌>>◌, guard, as_reason, ltb,
  length,
}
use mitum_currency.Prelude.Bytes.{Bytes}
use mitum_currency.Mitum.{Mitum}
use mitum_currency.CurrencyId.{CurrencyId}
use mitum_currency.StateKey.{
  Address, state_key_account, state_key_balance, state_key_currency_design,
}
use mitum_currency.Feeer
use mitum_currency.Design.{CurrencyDesign, CurrencyPolicy, set_policy}
use mitum_currency.State.{
  StateApi, State, AmountState, amount_state, new_amount_state, check_exists_state, add_amount,
  state_currency_design_value, set_state_currency_design_value,
}
use mitum_currency.Pool
use mitum_currency.Pool.{CurrencyPool}
use mitum_currency.Fees.{check_fact_signs_by_pubs}

pub record CurrencyRegisterFact (m : Mitum) : Type 0 where
  pub h : m.Hash
  pub token : Bytes
  pub currency : CurrencyDesign

pub record CurrencyRegister (m : Mitum) : Type 0 where
  pub fact : CurrencyRegisterFact m
  pub signs : List m.Publickey
  pub memo : Bytes

pub record CurrencyPolicyUpdaterFact (m : Mitum) : Type 0 where
  pub h : m.Hash
  pub token : Bytes
  pub cid : CurrencyId
  pub policy : CurrencyPolicy

pub record CurrencyPolicyUpdater (m : Mitum) : Type 0 where
  pub fact : CurrencyPolicyUpdaterFact m
  pub signs : List m.Publickey
  pub memo : Bytes

pub record RegisterProcessor {m : Mitum} (api : StateApi m) : Type 0 where
  pub op : CurrencyRegister m
  pub ga : AmountState api
  pub de : State api

pub record PolicyProcessor {m : Mitum} (api : StateApi m) : Type 0 where
  pub op : CurrencyPolicyUpdater m
  pub st : State api
  pub de : CurrencyDesign

-- `len(opp.pubs) < 1`, and the signs of the suffrage.
unfoldable pub check_suffrage :
    (m : Mitum) → List m.Publickey → ℕ → List m.Publickey → Result (Unit {0})
check_suffrage m pubs threshold signs = do
  guard (not (ltb (length pubs) 1)) (plain empty_publickeys)
  check_fact_signs_by_pubs m pubs threshold signs

-- The key of a nil address dereferences it.
unfoldable pub genesis_account : Option Address → Result Address
genesis_account none = err panic
genesis_account (some a) = ok a

module _ {m : Mitum} {api : StateApi m} where
  -- Whether the pool has the currency; without a pool nothing is checked.
  unfoldable pub check_registered :
      Option (CurrencyPool api) → Bool → CurrencyId → Result (Unit {0})
  check_registered none expected cid = ok tt
  check_registered (some p) true cid = guard (Pool.exists p cid) (plain unknown_currency)
  check_registered (some p) false cid = guard (not (Pool.exists p cid)) (plain already_registered)

  -- `checkExistsState` for an account that may be nil.
  unfoldable pub check_receiver :
      Option Address → (Bytes → Result (State api × Bool)) → Result (Unit {0})
  check_receiver none get_state = ok tt
  check_receiver (some a) get_state = check_exists_state (state_key_account a) get_state

  unfoldable pub register_pre_process :
      Option (CurrencyPool api)
      → List m.Publickey
      → ℕ
      → (Bytes → Result (State api × Bool))
      → CurrencyRegister m
      → Result (RegisterProcessor api)
  register_pre_process cp pubs threshold get_state op = do
    check_suffrage m pubs threshold op.signs
    let item = op.fact.currency
    let cid = item.amount.cid
    check_registered cp false cid
    a ← genesis_account item.genesis_account
    check_exists_state (state_key_account a) get_state
    check_receiver (Feeer.receiver item.policy.feeer) get_state
    r ← get_state (state_key_currency_design cid)
    guard (not r.1) (plain already_registered)
    g ← get_state (state_key_balance a cid)
    guard (not g.1) (plain already_registered)
    ok (record { op = op; ga = new_amount_state g.0 cid; de = r.0 })

  -- `Process`, up to the states that it hands to `setState`.
  unfoldable pub register_process : RegisterProcessor api → Result (List (State api))
  register_process opp = do
    s ← add_amount opp.ga opp.op.fact.currency.amount.big
    d ← set_state_currency_design_value opp.de opp.op.fact.currency
    ok (amount_state s ∷ d ∷ [])

  unfoldable pub policy_pre_process :
      Option (CurrencyPool api)
      → List m.Publickey
      → ℕ
      → (Bytes → Result (State api × Bool))
      → CurrencyPolicyUpdater m
      → Result (PolicyProcessor api)
  policy_pre_process cp pubs threshold get_state op = do
    check_suffrage m pubs threshold op.signs
    check_registered cp true op.fact.cid
    check_receiver (Feeer.receiver op.fact.policy.feeer) get_state
    r ← get_state (state_key_currency_design op.fact.cid)
    guard r.1 (plain unknown_currency)
    de ← state_currency_design_value r.0
    ok (record { op = op; st = r.0; de = de })

  unfoldable pub policy_process : PolicyProcessor api → Result (List (State api))
  policy_process opp = do
    d ← set_state_currency_design_value opp.st (set_policy opp.de opp.op.fact.policy)
    ok (d ∷ [])
