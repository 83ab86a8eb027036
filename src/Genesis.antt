-- ===== src/Genesis.antt =====
-- currency/genesis_currencies.go and currency/genesis_currencies_process.go: the operation of the
-- first block, which opens the genesis account and registers the first currencies.
pub mod Emits
mod Tests
use mitum_currency.Prelude.{
  ℕ, Bool, true, false, not, Option, none, some, List, [], ◌∷◌, ◌++◌, ltb, eqb, length, Result, ok,
  err, plain, panic, invalid, duplicated, external, guard, as_reason, ◌>>=◌, ◌>>◌,
}
use mitum_currency.Prelude.Bytes.{Bytes, bytes_eq_instance}
use mitum_currency.Prelude.Map.{Map, lookup, insert}
use mitum_currency.Mitum.{Mitum}
use mitum_currency.CurrencyId.{CurrencyId}
use mitum_currency.StateKey.{
  Address, state_key_account, state_key_balance, state_key_currency_design,
}
use mitum_currency.Keys.{
  Keys, keys_bytes, keys_is_valid, new_address_from_keys, new_account_from_keys, contains_text,
}
use mitum_currency.Design.{Amount, CurrencyDesign, design_is_valid}
use mitum_currency.State.{
  StateApi, State, AmountState, amount_state, new_amount_state, not_exists_state,
  set_state_account_value, set_state_balance_value, set_state_currency_design_value,
}
use mitum_currency.Currencies.Facts.{design_bytes}

pub record GenesisCurrenciesFact (m : Mitum) : Type 0 where
  pub h : m.Hash
  pub token : Bytes
  pub genesis_node_key : m.Publickey
  pub keys : Keys m
  pub cs : List CurrencyDesign

unfoldable pub designs_bytes : List CurrencyDesign → Result Bytes
unfolding design_bytes
designs_bytes [] = ok []
designs_bytes (c ∷ cs) = do b ← design_bytes c; bs ← designs_bytes cs; ok (b ++ bs)

-- The loop of `IsValid` over the currencies; `founds` are the ids that it has met.
unfoldable pub check_designs : Mitum → List CurrencyId → List CurrencyDesign → Result (Unit {0})
check_designs m founds [] = ok tt
check_designs m founds (c ∷ cs) =
    let rest = check_designs m (c.amount.cid ∷ founds) cs in
    (do
      design_is_valid m c
      guard (not (contains_text c.amount.cid founds)) (plain duplicated)
      rest)

module _ {m : Mitum} where
  unfoldable pub generate_hash : Bytes → m.Publickey → Keys m → List CurrencyDesign → Result m.Hash
  unfolding designs_bytes
  generate_hash token k ks cs = do
    b ← designs_bytes cs
    ok (m.sha256 (token ++ (m.publickey_string k ++ (keys_bytes ks.keys ks.threshold ++ b))))

  -- `NewGenesisCurrenciesFact`
  unfoldable pub new_fact :
      Bytes → m.Publickey → Keys m → List CurrencyDesign → Result (GenesisCurrenciesFact m)
  unfolding generate_hash
  new_fact token k ks cs = do
    h ← generate_hash token k ks cs
    ok (record { h = h; token = token; genesis_node_key = k; keys = ks; cs = cs })

  unfoldable pub fact_is_valid : GenesisCurrenciesFact m → Result (Unit {0})
  unfolding check_designs generate_hash
  fact_is_valid fact = do
    guard (not (ltb (length fact.token) 1)) (plain invalid)
    guard (not (ltb (length fact.cs) 1)) (plain invalid)
    guard (m.hash_is_valid fact.h) (plain external)
    guard (m.publickey_is_valid fact.genesis_node_key) (plain external)
    keys_is_valid fact.keys
    check_designs m [] fact.cs
    h ← generate_hash fact.token fact.genesis_node_key fact.keys fact.cs
    guard (m.hash_equal fact.h h) (plain invalid)

  -- `IsValid` of the operation, for what mitum's `IsValidOperation` says and the signers.
  unfoldable pub is_valid :
      Result (Unit {0}) → GenesisCurrenciesFact m → List m.Publickey → Result (Unit {0})
  is_valid checked fact [] = checked >> err (plain invalid)
  is_valid checked fact (s ∷ []) =
      checked >> guard (m.publickey_equal fact.genesis_node_key s) (plain invalid)
  is_valid checked fact (s ∷ t ∷ signs) = checked >> err (plain invalid)

-- The maps `sts` and `gas` that the first loop of `Process` fills.
pub record Found {m : Mitum} (api : StateApi m) : Type 0 where
  pub designs : Map CurrencyId (State api)
  pub balances : Map CurrencyId (AmountState api)

module _ {m : Mitum} {api : StateApi m} where
  unfoldable pub find_states :
      (Bytes → Result (State api × Bool))
      → Address
      → Found api
      → List CurrencyDesign
      → Result (Found api)
  find_states get_state a found [] = ok found
  find_states get_state a found (c ∷ cs) = do
    d ← not_exists_state (state_key_currency_design c.amount.cid) get_state
    g ← not_exists_state (state_key_balance a c.amount.cid) get_state
    find_states get_state a
        (record {
          designs = insert c.amount.cid d found.designs;
          balances = insert c.amount.cid (new_amount_state g c.amount.cid) found.balances;
        })
        cs

  -- The second loop.
  unfoldable pub set_states : Found api → List CurrencyDesign → Result (List (State api))
  set_states found [] = ok []
  set_states found (c ∷ cs) = do
    ga ← elim (lookup c.amount.cid found.balances) [ none ↦ err panic | some g ↦ ok g ]
    gst ← set_state_balance_value (amount_state ga) c.amount
    de ← elim (lookup c.amount.cid found.designs) [ none ↦ err panic | some d ↦ ok d ]
    dst ← set_state_currency_design_value de c
    rest ← set_states found cs
    ok (gst ∷ dst ∷ rest)

  -- `Process`, up to the states that it hands to `setState`.
  unfoldable pub process :
      (Bytes → Result (State api × Bool)) → GenesisCurrenciesFact m → Result (List (State api))
  unfolding find_states set_states
  process get_state fact = do
    a ← as_reason (new_address_from_keys fact.keys)
    ns ← not_exists_state (state_key_account a) get_state
    found ← find_states get_state a (record { designs = []; balances = [] }) fact.cs
    ac ← new_account_from_keys fact.keys
    st ← as_reason (set_state_account_value ns ac)
    rest ← set_states found fact.cs
    ok (st ∷ rest)
