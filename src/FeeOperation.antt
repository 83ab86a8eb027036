-- ===== src/FeeOperation.antt =====
-- currency/fee.go: the operation that pays the fees of a block out.
pub mod Deltas
pub mod Facts
use mitum_currency.Prelude.{
  Bool, true, false, Option, none, some, List, [], ◌∷◌, map, Result, ok, err, plain,
  unknown_currency, ◌>>=◌, ◌>>◌,
}
use mitum_currency.Prelude.Bytes.{Bytes}
use mitum_currency.Prelude.Map.{Map}
use mitum_currency.Mitum.{Mitum}
use mitum_currency.CurrencyId.{CurrencyId}
use mitum_currency.StateKey.{Address, state_key_account, state_key_balance}
use mitum_currency.Big.{Big}
use mitum_currency.Feeer
use mitum_currency.Feeer.{Feeer}
use mitum_currency.Design.{Amount}
use mitum_currency.State.{
  StateApi, State, amount_state, new_amount_state, check_exists_state, add_amount,
}
use mitum_currency.Pool
use mitum_currency.Pool.{CurrencyPool}

-- `NewFeeOperationFact`: an amount for each entry of the map of fees.
unfoldable pub fee_amounts : Map CurrencyId Big → List Amount
fee_amounts [] = []
fee_amounts ((cid, b) ∷ fees) = record { big = b; cid = cid } ∷ fee_amounts fees

module _ {m : Mitum} {api : StateApi m} where
  -- The state of one amount: nil where the fee has no receiver, since `sts[i]` stays as it was made.
  unfoldable pub pay :
      (Bytes → Result (State api × Bool)) → Option Address → Amount → Result (Option (State api))
  pay get_state none am = ok none
  pay get_state (some a) am = do
    check_exists_state (state_key_account a) get_state
    r ← get_state (state_key_balance a am.cid)
    s ← add_amount (new_amount_state r.0 am.cid) am.big
    ok (some (amount_state s))

  -- `FeeOperationProcessor.Process`, up to the states that it hands to `setState`.
  unfoldable pub process :
      CurrencyPool api
      → (Bytes → Result (State api × Bool))
      → List Amount
      → Result (List (Option (State api)))
  unfolding pay
  process cp get_state [] = ok []
  process cp get_state (am ∷ ams) = do
    feeer ← elim (Pool.feeer cp am.cid) [ none ↦ err (plain unknown_currency) | some f ↦ ok f ]
    s ← pay get_state (Feeer.receiver feeer) am
    sts ← process cp get_state ams
    ok (s ∷ sts)
