-- ===== src/Currencies/Minting.antt =====
-- currency/currency_register_process.go and currency/currency_policy_updater_process.go: what a
-- registration mints, and that a change of policy mints nothing.
use mitum_currency.Prelude.{
  ℕ, Bool, true, false, not, Option, List, [], ◌∷◌, Result, ok, ◌≡◌, refl, sym, ap, ◌∙◌, with_ok,
  subst, guard, guard-eq-ok, plain, already_registered, unknown_currency,
}
use mitum_currency.Prelude.Int.{pos, int_laws}
use mitum_currency.Prelude.Bytes.{Bytes, bytes_eq_instance}
use mitum_currency.Prelude.Sums.{at_key, at_key-zero}
use mitum_currency.Mitum.{Mitum}
use mitum_currency.CurrencyId.{CurrencyId}
use mitum_currency.StateKey.{
  Address, state_key_account, state_key_balance, state_key_currency_design,
}
use mitum_currency.Big.Laws.{val}
use mitum_currency.Feeer
use mitum_currency.State.{
  StateApi, State, amount_state, new_amount_state, check_exists_state, add_amount,
  set_state_currency_design_value, design_value, state_currency_design_value,
}
use mitum_currency.Design.{set_policy}
use mitum_currency.Pool.{CurrencyPool}
use mitum_currency.Emission.Deltas.{
  delta, fee_total, delta-cons, IsFreshFor, ReadsFresh, IsPlain, new_amount_state-IsFreshFor,
  add_amount-Collected, set_value-delta,
}
use mitum_currency.Currencies.{
  CurrencyRegister, CurrencyPolicyUpdater, RegisterProcessor, PolicyProcessor, check_suffrage,
  check_registered, genesis_account, check_receiver, register_pre_process, register_process,
  policy_pre_process, policy_process,
}

not-true : (b : Bool) → not b ≡ true → b ≡ false
not-true true h = absurd (cc)
not-true false h = refl

module _ {m : Mitum} {api : StateApi m} where
  -- What stands under the key of a currency design is no state of a balance.
  abbrev pub ReadsPlainDesigns : (Bytes → Result (State api × Bool)) → Type 0
  ReadsPlainDesigns get_state =
      (cid : CurrencyId) (st : State api) (b : Bool)
      → get_state (state_key_currency_design cid) ≡ ok (st, b)
      → IsPlain st

  register_process-delta :
      (cid c : CurrencyId) (opp : RegisterProcessor api) {sts : List (State api)}
      → IsFreshFor c opp.ga
      → IsPlain opp.de
      → register_process opp ≡ ok sts
      → (delta cid sts ≡ at_key cid c (val opp.op.fact.currency.amount.big))
        × (fee_total cid sts ≡ pos 0)
  unfolding register_process set_state_currency_design_value
  register_process-delta cid c opp {sts} fresh p e =
      with_ok (add_amount opp.ga opp.op.fact.currency.amount.big) _ e λ s added r₁.
        with_ok (set_state_currency_design_value opp.de opp.op.fact.currency) _ r₁ λ d set same.
          let shape : amount_state s ∷ d ∷ [] ≡ sts = cc in
          let (k, f) =
            delta-cons cid c (val opp.op.fact.currency.amount.big) (pos 0) s (d ∷ [])
              (add_amount-Collected c opp.ga opp.op.fact.currency.amount.big fresh added) in
          let (ds, fs) = set_value-delta cid opp.de (design_value opp.op.fact.currency) [] p set in
          rw (← shape) (
            k ∙ rw ds (unfold delta in omega int_laws),
            f ∙ rw (fs, at_key-zero cid c) (unfold fee_total in omega int_laws),
          )

module _ {m : Mitum} {api : StateApi m} (get_state : Bytes → Result (State api × Bool)) where
  -- What the preparation of a registration has found.
  register_pre_process-parts :
      (cp : Option (CurrencyPool api)) (pubs : List m.Publickey) (threshold : ℕ)
      (op : CurrencyRegister m) {opp : RegisterProcessor api}
      → register_pre_process cp pubs threshold get_state op ≡ ok opp
      → (a : Address) × (g : State api) × (b : Bool) × (opp.op ≡ op)
        × (opp.ga ≡ new_amount_state g op.fact.currency.amount.cid)
        × (get_state (state_key_balance a op.fact.currency.amount.cid) ≡ ok (g, b))
        × (get_state (state_key_currency_design op.fact.currency.amount.cid) ≡ ok (opp.de, false))
        × (check_suffrage m pubs threshold op.signs ≡ ok tt)
  unfolding register_pre_process
  register_pre_process-parts cp pubs threshold op {opp} e =
      let item = op.fact.currency in
      let cid = item.amount.cid in
      with_ok (check_suffrage m pubs threshold op.signs) _ e λ u₁ signed r₁.
        with_ok (check_registered cp false cid) _ r₁ λ u₂ new r₂.
          with_ok (genesis_account item.genesis_account) _ r₂ λ a known r₃.
            with_ok (check_exists_state (state_key_account a) get_state) _ r₃ λ u₃ there r₄.
              with_ok (check_receiver (Feeer.receiver item.policy.feeer) get_state) _ r₄
                λ u₄ receives r₅.
                  with_ok (get_state (state_key_currency_design cid)) _ r₅ λ r got r₆.
                    with_ok (guard (not r.1) (plain already_registered)) _ r₆ λ u₅ absent r₇.
                      with_ok (get_state (state_key_balance a cid)) _ r₇ λ g found r₈.
                        with_ok (guard (not g.1) (plain already_registered)) _ r₈ λ u₆ absent' same.
                          let shape : record { op = op; ga = new_amount_state g.0 cid; de = r.0 }
                              ≡ opp =
                            cc in
                          let flag : r.1 ≡ false = not-true r.1 (guard-eq-ok (not r.1) _ absent) in
                          rw (← shape) (
                            a,
                            g.0,
                            g.1,
                            refl,
                            refl,
                            found,
                            got ∙ ap (λ b. ok (r.0, b)) flag,
                            signed,
                          )

  -- If the preparation and the processing of a registration succeed, over a database that hands
  -- out only balances that have collected nothing and no balance under the key of a currency
  -- design, then the emitted states add the amount of the new currency to the balances of that
  -- currency, nothing to any other, and carry no fee.
  pub register-delta :
      (fresh : ReadsFresh get_state) (plain_designs : ReadsPlainDesigns get_state)
      (cid : CurrencyId) (cp : Option (CurrencyPool api)) (pubs : List m.Publickey) (threshold : ℕ)
      (op : CurrencyRegister m) {opp : RegisterProcessor api} {sts : List (State api)}
      → register_pre_process cp pubs threshold get_state op ≡ ok opp
      → register_process opp ≡ ok sts
      → (delta cid sts ≡ at_key cid op.fact.currency.amount.cid (val op.fact.currency.amount.big))
        × (fee_total cid sts ≡ pos 0)
  register-delta fresh plain_designs cid cp pubs threshold op {opp} {sts} e p =
      let (a, g, b, same, ga, found, design, signed) =
        register_pre_process-parts cp pubs threshold op e in
      let c = op.fact.currency.amount.cid in
      let ready =
        subst (IsFreshFor c) (sym ga) (new_amount_state-IsFreshFor get_state a c g b fresh found) in
      let (d, f) = register_process-delta cid c opp ready (plain_designs c opp.de false design) p in
      (d ∙ ap (λ o. at_key cid c (val o.fact.currency.amount.big)) same, f)

  policy_pre_process-IsPlain :
      (plain_designs : ReadsPlainDesigns get_state) (cp : Option (CurrencyPool api))
      (pubs : List m.Publickey) (threshold : ℕ) (op : CurrencyPolicyUpdater m)
      {opp : PolicyProcessor api}
      → policy_pre_process cp pubs threshold get_state op ≡ ok opp
      → IsPlain opp.st
  unfolding policy_pre_process
  policy_pre_process-IsPlain plain_designs cp pubs threshold op {opp} e =
      with_ok (check_suffrage m pubs threshold op.signs) _ e λ u₁ signed r₁.
        with_ok (check_registered cp true op.fact.cid) _ r₁ λ u₂ old r₂.
          with_ok (check_receiver (Feeer.receiver op.fact.policy.feeer) get_state) _ r₂
            λ u₃ receives r₃.
              with_ok (get_state (state_key_currency_design op.fact.cid)) _ r₃ λ r got r₄.
                with_ok (guard r.1 (plain unknown_currency)) _ r₄ λ u₄ there r₅.
                  with_ok (state_currency_design_value r.0) _ r₅ λ de read same.
                    let shape : record { op = op; st = r.0; de = de } ≡ opp = cc in
                    rw (← shape) (plain_designs op.fact.cid r.0 r.1 got)

  -- A change of policy changes no balance.
  pub policy-delta :
      (plain_designs : ReadsPlainDesigns get_state) (cid : CurrencyId)
      (cp : Option (CurrencyPool api)) (pubs : List m.Publickey) (threshold : ℕ)
      (op : CurrencyPolicyUpdater m) {opp : PolicyProcessor api} {sts : List (State api)}
      → policy_pre_process cp pubs threshold get_state op ≡ ok opp
      → policy_process opp ≡ ok sts
      → delta cid sts ≡ pos 0
  unfolding policy_process set_state_currency_design_value
  policy-delta plain_designs cid cp pubs threshold op {opp} {sts} e p =
      with_ok (set_state_currency_design_value opp.st (set_policy opp.de opp.op.fact.policy)) _ p
        λ d set same.
          let shape : d ∷ [] ≡ sts = cc in
          let (ds, fs) =
            set_value-delta cid opp.st (design_value (set_policy opp.de opp.op.fact.policy)) []
              (policy_pre_process-IsPlain plain_designs cp pubs threshold op e) set in
          rw (← shape) (ds ∙ (unfold delta in refl))
