-- ===== src/Emission/Sender.antt =====
-- currency/create_accounts_process.go: the states of the sender's balances that
-- `CheckEnoughBalance` returns have collected nothing yet.
use mitum_currency.Prelude.{Bool, true, [], ◌∷◌, Result, ok, ◌≡◌, sym, subst}
use mitum_currency.Prelude.Bytes.{Bytes, bytes_eq_instance}
use mitum_currency.Prelude.Map.{Map, Entries}
use mitum_currency.Mitum.{Mitum}
use mitum_currency.CurrencyId.{CurrencyId}
use mitum_currency.StateKey.{Address}
use mitum_currency.State.{StateApi, State, AmountState}
use mitum_currency.Fees.{Required, check_enough_balance}
use mitum_currency.Fees.Enough.{IsReadFor, check_enough_balance-IsReadFor}
use mitum_currency.Emission.Deltas.{IsFreshFor, ReadsFresh, new_amount_state-IsFreshFor}

module _ {m : Mitum} {api : StateApi m} (get_state : Bytes → Result (State api × Bool))
    (fresh : ReadsFresh get_state) where
  IsReadFor-IsFreshFor :
      (a : Address) (sb : Map CurrencyId (AmountState api))
      → Entries (IsReadFor get_state a) sb
      → Entries IsFreshFor sb
  unfolding IsReadFor
  IsReadFor-IsFreshFor a [] h = tt
  IsReadFor-IsFreshFor a ((c, s) ∷ sb) h =
      let (st, got, same) = h.0 in
      (
        subst (IsFreshFor c) (sym same)
            (new_amount_state-IsFreshFor get_state a c st true fresh got),
        IsReadFor-IsFreshFor a sb h.1,
      )

  pub check_enough_balance-IsFreshFor :
      (holder : Address) (required : Required) {sb : Map CurrencyId (AmountState api)}
      → check_enough_balance holder required get_state ≡ ok sb
      → Entries IsFreshFor sb
  check_enough_balance-IsFreshFor holder required {sb} e =
      IsReadFor-IsFreshFor holder sb (check_enough_balance-IsReadFor get_state holder required e)
