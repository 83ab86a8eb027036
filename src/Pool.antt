-- ===== src/Pool.antt =====
-- currency/currency_pool.go: the pool of registered currencies. Its lock makes each method atomic.
pub mod Laws
mod Tests
use mitum_currency.Prelude.{
  Bool, true, false, Option, none, some, List, [], ◌∷◌, ◌++◌, Result, ok, ◌>>=◌,
}
use mitum_currency.Prelude.Bytes.{bytes_eq_instance}
use mitum_currency.Prelude.Map.{Map, lookup, contains, insert}
use mitum_currency.Mitum.{Mitum}
use mitum_currency.CurrencyId.{CurrencyId}
use mitum_currency.Feeer.{Feeer}
use mitum_currency.Design.{CurrencyDesign, CurrencyPolicy}
use mitum_currency.State.{StateApi, State, state_currency_design_value}

pub record CurrencyPool {m : Mitum} (api : StateApi m) : Type 0 where
  pub demap : Map CurrencyId CurrencyDesign
  pub stsmap : Map CurrencyId (State api)
  pub cids : List CurrencyId

-- `TraverseDesign`, as the list of the pairs that the callback is called with: it ends behind
-- the first one that the callback turns down.
unfoldable pub traverse_design :
    (CurrencyId → CurrencyDesign → Bool)
    → Map CurrencyId CurrencyDesign
    → Map CurrencyId CurrencyDesign
traverse_design callback [] = []
traverse_design callback ((k, de) ∷ rest) =
    (k, de) ∷ elim (callback k de) [ true ↦ traverse_design callback rest | false ↦ [] ]

module _ {m : Mitum} {api : StateApi m} where
  abbrev pub new_currency_pool : CurrencyPool api
  new_currency_pool = record { demap = []; stsmap = []; cids = [] }

  -- `Set`: a currency that is set again is listed once more in `cids`.
  unfoldable pub set : CurrencyPool api → State api → Result (CurrencyPool api)
  set cp st = do
    de ← state_currency_design_value st
    ok (record {
      demap = insert de.amount.cid de cp.demap;
      stsmap = insert de.amount.cid st cp.stsmap;
      cids = cp.cids ++ (de.amount.cid ∷ []);
    })

  unfoldable pub get : CurrencyPool api → CurrencyId → Option CurrencyDesign
  get cp cid = lookup cid cp.demap

  unfoldable pub exists : CurrencyPool api → CurrencyId → Bool
  exists cp cid = contains cid cp.demap

  unfoldable pub policy : CurrencyPool api → CurrencyId → Option CurrencyPolicy
  unfolding get
  policy cp cid = elim (get cp cid) [ none ↦ none | some de ↦ some de.policy ]

  unfoldable pub feeer : CurrencyPool api → CurrencyId → Option Feeer
  unfolding get
  feeer cp cid = elim (get cp cid) [ none ↦ none | some de ↦ some de.policy.feeer ]

  unfoldable pub state : CurrencyPool api → CurrencyId → Option (State api)
  state cp cid = lookup cid cp.stsmap
