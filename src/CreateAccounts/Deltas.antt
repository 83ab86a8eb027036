-- ===== src/CreateAccounts/Deltas.antt =====
-- currency/create_accounts_process.go: what the opening of accounts adds and takes in each currency.
use mitum_currency.Prelude.{
  Bool, Option, List, [], ◌∷◌, ◌++◌, map, Result, ok, ◌≡◌, refl, sym, ◌∙◌, with_ok, subst,
  as_reason, as_reason-eq-ok, guard, reason, already_exist, not,
}
use mitum_currency.Prelude.Int.{pos, ◌+ℤ◌, int_laws}
use mitum_currency.Prelude.Bytes.{Bytes, bytes_eq_instance}
use mitum_currency.Prelude.Map.{Map, insert, Entries, insert-Entries}
use mitum_currency.Mitum.{Mitum}
use mitum_currency.CurrencyId.{CurrencyId}
use mitum_currency.StateKey.{Address, state_key_balance, state_key_account}
use mitum_currency.Keys.{new_address_from_keys, new_account_from_keys}
use mitum_currency.Design.{Amount}
use mitum_currency.State.{
  StateApi, State, AmountState, new_amount_state, not_exists_state, check_exists_state,
  set_state_account_value, account_value,
}
use mitum_currency.Pool.{CurrencyPool}
use mitum_currency.Fees.{calculate_items_fee, check_enough_balance, check_fact_signs_by_state}
use mitum_currency.Fees.Required.{
  amounts_total, charges_total, all_amounts, calculate_items_fee-sums, amounts_total-append,
}
use mitum_currency.Emission.Sender.{check_enough_balance-IsFreshFor}
use mitum_currency.Emission.{credit, debit}
use mitum_currency.Emission.Deltas.{
  delta, fee_total, delta-append, fee_total-append, IsFreshFor, ReadsFresh, ReadsPlainAccounts,
  IsPlain, set_value-delta, new_amount_state-IsFreshFor, credit-delta, debit-delta, settle,
}
use mitum_currency.CreateAccounts.{
  CreateAccounts, CreateAccountsItem, CreateAccountsProcessor, ItemProcessor, check_minimums,
  target_balances, item_pre_process, item_process, items_pre_process, pre_process, items_process,
  process,
}

module _ {m : Mitum} {api : StateApi m} (get_state : Bytes → Result (State api × Bool)) where
  -- The checks that `PreProcess` makes, and what the processor keeps of them.
  pub pre_process-parts :
      (cp : Option (CurrencyPool api)) (op : CreateAccounts m) {opp : CreateAccountsProcessor api}
      → pre_process cp get_state op ≡ ok opp
      → (check_exists_state (state_key_account op.fact.sender) get_state ≡ ok tt)
        × (calculate_items_fee cp (map (λ it. it.amounts) op.fact.items) ≡ ok opp.required)
        × (check_enough_balance op.fact.sender opp.required get_state ≡ ok opp.sb)
        × (items_pre_process cp get_state op.fact.items ≡ ok opp.ns)
        × (check_fact_signs_by_state op.fact.sender op.signs get_state ≡ ok tt)
  unfolding pre_process
  pre_process-parts cp op {opp} e =
      with_ok (check_exists_state (state_key_account op.fact.sender) get_state) _ e λ u known r₁.
        with_ok (as_reason (calculate_items_fee cp (map (λ it. it.amounts) op.fact.items))) _ r₁
          λ required calculated r₂.
            with_ok (check_enough_balance op.fact.sender required get_state) _ r₂ λ sb enough r₃.
              with_ok (items_pre_process cp get_state op.fact.items) _ r₃ λ ns ready r₄.
                with_ok (as_reason (check_fact_signs_by_state op.fact.sender op.signs get_state)) _
                  r₄
                  λ v signed same.
                    let shape : record { op = op; sb = sb; ns = ns; required = required } ≡ opp =
                      cc in
                    rw (← shape)
                      (known, as_reason-eq-ok _ calculated, enough, ready, as_reason-eq-ok _ signed)

module _ {m : Mitum} {api : StateApi m} where
  -- A processor that is ready to process its item.
  unfoldable pub IsReady : CreateAccountsItem m → ItemProcessor api → Type 0
  IsReady item c = (c.item ≡ item) × IsPlain c.ns × Entries IsFreshFor c.nb

  item_process-delta :
      (cid : CurrencyId) (item : CreateAccountsItem m) (c : ItemProcessor api)
      {sts : List (State api)}
      → IsReady item c
      → item_process c ≡ ok sts
      → (delta cid sts ≡ amounts_total cid item.amounts) × (fee_total cid sts ≡ pos 0)
  unfolding item_process IsReady set_state_account_value
  item_process-delta cid item c {sts = sts'} (same_item, plain, nb) e =
      with_ok (new_account_from_keys c.item.keys) _ e λ nac made r₁.
        with_ok (set_state_account_value c.ns nac) _ r₁ λ st set r₂.
          with_ok (credit c.nb c.item.amounts) _ r₂ λ sts credited same.
            let shape : st ∷ sts ≡ sts' = cc in
            let (d, f) = credit-delta cid c.nb c.item.amounts nb credited in
            let (ds, fs) = set_value-delta cid c.ns (account_value nac) sts plain set in
            rw (← shape, ← same_item) (ds ∙ d, fs ∙ f)

module _ {m : Mitum} {api : StateApi m} (get_state : Bytes → Result (State api × Bool))
    (fresh : ReadsFresh get_state) (plain_accounts : ReadsPlainAccounts get_state) where
  target_balances-fresh :
      (a : Address) (nb : Map CurrencyId (AmountState api)) (ams : List Amount)
      {nb' : Map CurrencyId (AmountState api)}
      → Entries IsFreshFor nb
      → target_balances get_state a nb ams ≡ ok nb'
      → Entries IsFreshFor nb'
  unfolding target_balances
  target_balances-fresh a nb [] {nb'} h e =
      let same : nb ≡ nb' = cc in subst (Entries IsFreshFor) same h
  target_balances-fresh a nb (am ∷ ams) h e =
      with_ok (get_state (state_key_balance a am.cid)) _ e λ r got rest.
        target_balances-fresh a (insert am.cid (new_amount_state r.0 am.cid) nb) ams
          (insert-Entries IsFreshFor am.cid (new_amount_state r.0 am.cid) nb
            (new_amount_state-IsFreshFor get_state a am.cid r.0 r.1 fresh got) h)
          rest

  not_exists_state-IsPlain :
      (a : Address) {st : State api}
      → not_exists_state (state_key_account a) get_state ≡ ok st
      → IsPlain st
  unfolding not_exists_state
  not_exists_state-IsPlain a {st} e = with_ok (get_state (state_key_account a)) _ e λ r got rest.
      with_ok (guard (not r.1) (reason already_exist)) _ rest λ u found same.
        let shape : r.0 ≡ st = cc in subst IsPlain shape (plain_accounts a r.0 r.1 got)

  pub item_pre_process-IsReady :
      (cp : Option (CurrencyPool api)) (item : CreateAccountsItem m) {c : ItemProcessor api}
      → item_pre_process cp get_state item ≡ ok c
      → IsReady item c
  unfolding item_pre_process IsReady
  item_pre_process-IsReady cp item {c} e =
      with_ok (check_minimums cp item.amounts) _ e λ u least r₁.
        with_ok (new_address_from_keys item.keys) _ r₁ λ target made r₂.
          with_ok (not_exists_state (state_key_account target) get_state) _ r₂ λ ns absent r₃.
            with_ok (target_balances get_state target [] item.amounts) _ r₃ λ nb found same.
              let shape : record { item = item; ns = ns; nb = nb } ≡ c = cc in
              rw (← shape) (
                refl,
                not_exists_state-IsPlain target absent,
                target_balances-fresh target [] item.amounts tt found,
              )

  -- All items of a processor together.
  items-delta :
      (cid : CurrencyId) (cp : Option (CurrencyPool api)) (items : List (CreateAccountsItem m))
      {ns : List (ItemProcessor api)} {sts : List (State api)}
      → items_pre_process cp get_state items ≡ ok ns
      → items_process ns ≡ ok sts
      → (delta cid sts ≡ amounts_total cid (all_amounts (map (λ it. it.amounts) items)))
        × (fee_total cid sts ≡ pos 0)
  unfolding items_pre_process items_process all_amounts amounts_total
  items-delta cid cp [] {ns} {sts} e p =
      let none_left : [] ≡ ns = cc in
      let p' = subst (λ r. items_process r ≡ ok sts) (sym none_left) p in
      let no_states : [] ≡ sts = cc in rw (← no_states) (unfold delta fee_total in (refl, refl))
  items-delta cid cp (item ∷ items) {ns = ns'} {sts = sts'} e p =
      with_ok (as_reason (item_pre_process cp get_state item)) _ e λ c first r₁.
        with_ok (items_pre_process cp get_state items) _ r₁ λ ns rest same.
          let shape : c ∷ ns ≡ ns' = cc in
          let p' = subst (λ r. items_process r ≡ ok sts') (sym shape) p in
          with_ok (as_reason (item_process c)) _ p' λ s credited r₂.
            with_ok (items_process ns) _ r₂ λ ss others same'.
              let shape' : s ++ ss ≡ sts' = cc in
              let (d, f) =
                item_process-delta cid item c
                  (item_pre_process-IsReady cp item (as_reason-eq-ok _ first))
                  (as_reason-eq-ok _ credited) in
              let (ds, fs) = items-delta cid cp items rest others in
              rw (← shape') (
                delta-append cid s ss ∙ rw (d, ds) (sym (amounts_total-append cid item.amounts _)),
                fee_total-append cid s ss ∙ rw (f, fs) (omega int_laws),
              )

  -- When the preparation and the processing of an operation that opens accounts succeed, over a
  -- database that hands out only balances that have collected nothing and no balance under the key
  -- of an account, then in every currency what its emitted states add to the balances and the fees
  -- that they carry sum to zero, and those fees are the ones that the feeers of the pool charge
  -- for the amounts of its items.
  pub create_accounts-delta :
      (cid : CurrencyId) (cp : Option (CurrencyPool api)) (op : CreateAccounts m)
      {opp : CreateAccountsProcessor api} {sts : List (State api)}
      → pre_process cp get_state op ≡ ok opp
      → process opp ≡ ok sts
      → (delta cid sts +ℤ fee_total cid sts ≡ pos 0)
        × (fee_total cid sts
            ≡ charges_total cid cp (all_amounts (map (λ it. it.amounts) op.fact.items)))
  unfolding process
  create_accounts-delta cid cp op {opp} {sts} e p =
      let (known, calculated, enough, ready, signed) = pre_process-parts get_state cp op e in
      with_ok (items_process opp.ns) _ p λ s credited r₅.
        with_ok (debit opp.sb opp.required) _ r₅ λ t debited same.
          let shape : s ++ t ≡ sts = cc in
          let items = map (λ it. it.amounts) op.fact.items in
          let (d, f) = items-delta cid cp op.fact.items ready credited in
          let (ds, fs) =
            debit-delta cid opp.sb opp.required
              (check_enough_balance-IsFreshFor get_state fresh op.fact.sender opp.required enough)
              debited in
          let (ps, qs) = calculate_items_fee-sums cid cp items calculated in
          rw (← shape, delta-append cid s t, fee_total-append cid s t)
            (settle _ _ _ _ _ _ _ _ d f ds fs ps qs)
