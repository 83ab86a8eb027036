-- ===== src/Genesis/Emits.antt =====
-- currency/genesis_currencies_process.go: the states of the first block.
use mitum_currency.Prelude.{
  Bool, false, not, none, some, List, [], ◌∷◌, Result, ok, err, panic, ◌≡◌, ap, ◌∙◌, subst, with_ok,
  guard, guard-eq-ok, reason, already_exist, as_reason, as_reason-eq-ok, All, arith,
}
use mitum_currency.Prelude.Bytes.{Bytes, bytes_eq_instance}
use mitum_currency.Prelude.Map.{lookup}
use mitum_currency.Mitum.{Mitum}
use mitum_currency.StateKey.{
  Address, state_key_account, state_key_balance, state_key_currency_design,
}
use mitum_currency.Keys.{Account, new_address_from_keys, new_account_from_keys}
use mitum_currency.Design.{CurrencyDesign}
use mitum_currency.State.{
  StateApi, State, Value, plain_state, amount_state, account_value, amount_value, design_value,
  value_of, set_value, not_exists_state, set_state_account_value, set_state_balance_value,
  set_state_currency_design_value,
}
use mitum_currency.Genesis.{GenesisCurrenciesFact, Found, find_states, set_states, process}

module _ {m : Mitum} {api : StateApi m} where
  set_value-value_of :
      (st : State api) (v : Value m) {t : State api} → set_value st v ≡ ok t → value_of t ≡ some v
  unfolding set_value value_of
  set_value-value_of (plain_state st) v {t} e = with_ok (api.set_value st v) _ e λ s put same.
      let shape : plain_state s ≡ t = cc in rw (← shape) (api.value-set_value st s v put)
  set_value-value_of (amount_state st) v {t} e =
      with_ok (api.set_value st.state v) _ e λ s put same.
        let shape : amount_state (record st { state = s }) ≡ t = cc in
        rw (← shape) (api.value-set_value st.state s v put)

  -- For each currency the balance of the genesis account and the design, in this order.
  abbrev pub Holds : List CurrencyDesign → List (State api) → Type 0
  Holds [] [] = Unit {0}
  Holds [] (s ∷ sts) = ⊥
  Holds (c ∷ cs) [] = ⊥
  Holds (c ∷ cs) (g ∷ []) = ⊥
  Holds (c ∷ cs) (g ∷ d ∷ sts) =
      (value_of g ≡ some (amount_value c.amount))
      × (value_of d ≡ some (design_value c))
      × Holds cs sts

  set_states-Holds :
      (found : Found api) (cs : List CurrencyDesign) {sts : List (State api)}
      → set_states found cs ≡ ok sts
      → Holds cs sts
  unfolding set_states set_state_balance_value set_state_currency_design_value
  set_states-Holds found [] {sts} e = let same : [] ≡ sts = cc in subst (Holds []) same tt
  set_states-Holds found (c ∷ cs) {sts} e =
      with_ok (elim (lookup c.amount.cid found.balances) [ none ↦ err panic | some g ↦ ok g ]) _ e
        λ ga b r₁. with_ok (set_state_balance_value (amount_state ga) c.amount) _ r₁ λ gst put r₂.
          with_ok (elim (lookup c.amount.cid found.designs) [ none ↦ err panic | some d ↦ ok d ]) _
            r₂
            λ de d r₃. with_ok (set_state_currency_design_value de c) _ r₃ λ dst put' r₄.
              with_ok (set_states found cs) _ r₄ λ rest others same.
                let shape : gst ∷ dst ∷ rest ≡ sts = cc in
                subst (Holds (c ∷ cs)) shape (
                  set_value-value_of (amount_state ga) (amount_value c.amount) put,
                  set_value-value_of de (design_value c) put',
                  set_states-Holds found cs others,
                )

module _ {m : Mitum} {api : StateApi m} (get_state : Bytes → Result (State api × Bool)) where
  -- Nothing stands under a key.
  abbrev pub IsUnused : Bytes → Type 0
  IsUnused k = (st : State api) × (get_state k ≡ ok (st, false))

  not_exists_state-IsUnused :
      (k : Bytes) {st : State api} → not_exists_state k get_state ≡ ok st → IsUnused k
  unfolding not_exists_state
  not_exists_state-IsUnused k e = with_ok (get_state k) _ e λ r got rest.
      with_ok (guard (not r.1) (reason already_exist)) _ rest λ u free same.
        let flag : r.1 ≡ false = ground (arith, guard-eq-ok (not r.1) _ free) in
        (r.0, got ∙ ap (λ b. ok (r.0, b)) flag)

  find_states-IsUnused :
      (a : Address) (cs : List CurrencyDesign) (found : Found api) {found' : Found api}
      → find_states get_state a found cs ≡ ok found'
      → All
          (λ c.
            IsUnused (state_key_currency_design c.amount.cid)
            × IsUnused (state_key_balance a c.amount.cid))
          cs
  unfolding find_states
  find_states-IsUnused a [] found e = tt
  find_states-IsUnused a (c ∷ cs) found e =
      with_ok (not_exists_state (state_key_currency_design c.amount.cid) get_state) _ e λ d free r₁.
        with_ok (not_exists_state (state_key_balance a c.amount.cid) get_state) _ r₁ λ g free' rest.
          (
            (not_exists_state-IsUnused _ free, not_exists_state-IsUnused _ free'),
            find_states-IsUnused a cs _ rest,
          )

  -- What the genesis operation does.
  pub record IsGenesis (fact : GenesisCurrenciesFact m) (sts : List (State api)) : Type 0 where
    pub address : Address
    pub account : Account m
    pub opened : State api
    pub others : List (State api)
    pub shape : opened ∷ others ≡ sts
    pub is_address : new_address_from_keys fact.keys ≡ ok address
    pub is_account : new_account_from_keys fact.keys ≡ ok account
    pub new_account : IsUnused (state_key_account address)
    pub new_currencies :
        All
          (λ c.
            IsUnused (state_key_currency_design c.amount.cid)
            × IsUnused (state_key_balance address c.amount.cid))
          fact.cs
    pub holds_account : value_of opened ≡ some (account_value account)
    pub holds_currencies : Holds fact.cs others

  -- If the genesis operation succeeds, then nothing stood under the keys of the account, of its
  -- balances and of the designs of its currencies, and the emitted states hold the account made of
  -- the keys and, for each currency in order, its amount as the balance and its design.
  pub process-IsGenesis :
      (fact : GenesisCurrenciesFact m) {sts : List (State api)}
      → process get_state fact ≡ ok sts
      → IsGenesis fact sts
  unfolding process set_state_account_value
  process-IsGenesis fact {sts} e =
      with_ok (as_reason (new_address_from_keys fact.keys)) _ e λ a made r₁.
        with_ok (not_exists_state (state_key_account a) get_state) _ r₁ λ ns free r₂.
          with_ok (find_states get_state a (record { designs = []; balances = [] }) fact.cs) _ r₂
            λ found new r₃. with_ok (new_account_from_keys fact.keys) _ r₃ λ ac account r₄.
              with_ok (as_reason (set_state_account_value ns ac)) _ r₄ λ st put r₅.
                with_ok (set_states found fact.cs) _ r₅ λ rest set same. record {
                  address = a;
                  account = ac;
                  opened = st;
                  others = rest;
                  shape = cc;
                  is_address = as_reason-eq-ok _ made;
                  is_account = account;
                  new_account = not_exists_state-IsUnused _ free;
                  new_currencies = find_states-IsUnused a fact.cs _ new;
                  holds_account = set_value-value_of ns (account_value ac) (as_reason-eq-ok _ put);
                  holds_currencies = set_states-Holds found fact.cs set;
                }
