-- ===== src/Emission.antt =====
-- currency/transfers_process.go and currency/create_accounts_process.go: the states that the
-- `Process` methods emit, credits from the items and debits of the sender.
pub mod Deltas
pub mod Sender
pub mod Nonneg
use mitum_currency.Prelude.{none, some, List, [], ◌∷◌, Result, ok, err, panic, ◌>>=◌}
use mitum_currency.Prelude.Bytes.{bytes_eq_instance}
use mitum_currency.Prelude.Map.{Map, lookup}
use mitum_currency.Mitum.{Mitum}
use mitum_currency.CurrencyId.{CurrencyId}
use mitum_currency.Design.{Amount}
use mitum_currency.State.{
  StateApi, State, AmountState, amount_state, add_amount, sub_amount, add_fee,
}
use mitum_currency.Fees.{Required}

-- `opp.rb[am.Currency()].Add(am.Big())`: of a currency that is not in the map it is the `Add` of a
-- nil `Big`. Transfers and new accounts share it.
module _ {m : Mitum} {api : StateApi m} where
  unfoldable pub credit : Map CurrencyId (AmountState api) → List Amount → Result (List (State api))
  credit rb [] = ok []
  credit rb (am ∷ ams) = do
    s ← elim (lookup am.cid rb) [ none ↦ err panic | some st ↦ add_amount st am.big ]
    sts ← credit rb ams
    ok (amount_state s ∷ sts)

  -- `opp.sb[k].Sub(rq[0]).AddFee(rq[1])` over `opp.required`.
  unfoldable pub debit : Map CurrencyId (AmountState api) → Required → Result (List (State api))
  debit sb [] = ok []
  debit sb ((cid, rq) ∷ required) = do
    s ← elim (lookup cid sb) [ none ↦ err panic | some st ↦ sub_amount st rq.0 ]
    t ← add_fee s rq.1
    sts ← debit sb required
    ok (amount_state t ∷ sts)
