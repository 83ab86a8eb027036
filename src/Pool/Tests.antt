-- ===== src/Pool/Tests.antt =====
-- currency/currency_pool.go: runs.
use mitum_currency.Prelude.{some, ok, ◌≡◌, refl, if◌then◌else◌, ◌==◌, [], ◌∷◌}
use mitum_currency.Prelude.Bytes.{bytes_eq_instance}
use mitum_currency.Design.{CurrencyDesign}
use mitum_currency.State
use mitum_currency.State.{State, plain_state, design_value, state_currency_design_value}
use mitum_currency.Pool
use mitum_currency.Pool.{CurrencyPool, get}
use mitum_currency.Pool.Laws.{get-set}
use mitum_currency.Examples.{api, mcc, pool_design, pool}

abbrev stored : State api
stored = plain_state (some (design_value pool_design))

abbrev next : CurrencyPool api
next = record {
  demap = (mcc, pool_design) ∷ [];
  stsmap = (mcc, stored) ∷ [];
  cids = mcc ∷ mcc ∷ [];
}

get-set_example :
    (de : CurrencyDesign) × (state_currency_design_value stored ≡ ok de)
    × (get next mcc ≡ (if de.amount.cid == mcc then some de else get pool mcc))
    × (Pool.state next mcc ≡ (if de.amount.cid == mcc then some stored else Pool.state pool mcc))
unfolding Pool.set state_currency_design_value State.value_of
get-set_example = get-set pool stored mcc refl
