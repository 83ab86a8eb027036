-- ===== src/Pool/Laws.antt =====
-- currency/currency_pool.go: what `Get` and `State` answer after `Set`.
use mitum_currency.Prelude.{some, ok, ◌≡◌, with_ok, if◌then◌else◌, ◌==◌, ◌++◌, [], ◌∷◌}
use mitum_currency.Prelude.Bytes.{bytes_eq_instance}
use mitum_currency.Prelude.Map.{insert, lookup-insert}
use mitum_currency.Mitum.{Mitum}
use mitum_currency.CurrencyId.{CurrencyId}
use mitum_currency.Design.{CurrencyDesign}
use mitum_currency.State.{StateApi, State, state_currency_design_value}
use mitum_currency.Pool.{CurrencyPool, set, get, state}

module _ {m : Mitum} {api : StateApi m} where
  -- If `Set` of a state succeeds, the state holds a currency design, and afterwards `Get` and
  -- `State` answer that design and that state for the currency of the design, and what they
  -- answered before for any other.
  pub get-set :
      (cp : CurrencyPool api) (st : State api) (cid : CurrencyId) {cp' : CurrencyPool api}
      → set cp st ≡ ok cp'
      → (de : CurrencyDesign) × (state_currency_design_value st ≡ ok de)
        × (get cp' cid ≡ (if de.amount.cid == cid then some de else get cp cid))
        × (state cp' cid ≡ (if de.amount.cid == cid then some st else state cp cid))
  unfolding set get state
  get-set cp st cid {cp'} e = with_ok (state_currency_design_value st) _ e λ de read same.
      let shape : record {
        demap = insert de.amount.cid de cp.demap;
        stsmap = insert de.amount.cid st cp.stsmap;
        cids = cp.cids ++ (de.amount.cid ∷ []);
      }
          ≡ cp' =
        cc in
      rw (← shape) (
        de,
        read,
        lookup-insert de.amount.cid cid de cp.demap,
        lookup-insert de.amount.cid cid st cp.stsmap,
      )
