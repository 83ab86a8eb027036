-- ===== src/Transfers/Deltas.antt =====
-- currency/transfers_process.go: what a transfer adds and takes in each currency.
use mitum_currency.Prelude.{
  Bool, Option, List, [], ◌∷◌, ◌++◌, map, Result, ok, ◌≡◌, refl, sym, ◌∙◌, with_ok, subst,
  as_reason, as_reason-eq-ok,
}
use mitum_currency.Prelude.Int.{pos, ◌+ℤ◌, int_laws}
use mitum_currency.Prelude.Bytes.{Bytes, bytes_eq_instance}
use mitum_currency.Prelude.Map.{Map, insert, Entries, insert-Entries}
use mitum_currency.Mitum.{Mitum}
use mitum_currency.CurrencyId.{CurrencyId}
use mitum_currency.StateKey.{Address, state_key_balance, state_key_account}
use mitum_currency.Design.{Amount}
use mitum_currency.State.{
  StateApi, State, AmountState, new_amount_state, exists_state, check_exists_state,
}
use mitum_currency.Pool.{CurrencyPool}
use mitum_currency.Fees.{calculate_items_fee, check_enough_balance, check_fact_signs_by_state}
use mitum_currency.Fees.Required.{
  amounts_total, charges_total, all_amounts, calculate_items_fee-sums, amounts_total-append,
}
use mitum_currency.Emission.Sender.{check_enough_balance-IsFreshFor}
use mitum_currency.Emission.{credit, debit}
use mitum_currency.Emission.Deltas.{
  delta, fee_total, delta-append, fee_total-append, IsFreshFor, ReadsFresh,
  new_amount_state-IsFreshFor, credit-delta, debit-delta, settle,
}
use mitum_currency.Transfers.{
  Transfers, TransfersItem, TransfersProcessor, receiver_balances, item_pre_process,
  items_pre_process, pre_process, items_process, process,
}

module _ {m : Mitum} {api : StateApi m} (get_state : Bytes → Result (State api × Bool)) where
  -- The checks that `PreProcess` makes, and what the processor keeps of them.
  pub pre_process-parts :
      (cp : Option (CurrencyPool api)) (op : Transfers m) {opp : TransfersProcessor api}
      → pre_process cp get_state op ≡ ok opp
      → (check_exists_state (state_key_account op.fact.sender) get_state ≡ ok tt)
        × (calculate_items_fee cp (map (λ it. it.amounts) op.fact.items) ≡ ok opp.required)
        × (check_enough_balance op.fact.sender opp.required get_state ≡ ok opp.sb)
        × (items_pre_process cp get_state op.fact.items ≡ ok opp.rb)
        × (check_fact_signs_by_state op.fact.sender op.signs get_state ≡ ok tt)
  unfolding pre_process
  pre_process-parts cp op {opp} e =
      with_ok (check_exists_state (state_key_account op.fact.sender) get_state) _ e λ u known r₁.
        with_ok (as_reason (calculate_items_fee cp (map (λ it. it.amounts) op.fact.items))) _ r₁
          λ required calculated r₂.
            with_ok (check_enough_balance op.fact.sender required get_state) _ r₂ λ sb enough r₃.
              with_ok (items_pre_process cp get_state op.fact.items) _ r₃ λ rb ready r₄.
                with_ok (check_fact_signs_by_state op.fact.sender op.signs get_state) _ r₄
                  λ v signed same.
                    let shape : record { op = op; sb = sb; rb = rb; required = required } ≡ opp =
                      cc in
                    rw (← shape) (known, as_reason-eq-ok _ calculated, enough, ready, signed)

module _ {m : Mitum} {api : StateApi m} (get_state : Bytes → Result (State api × Bool))
    (fresh : ReadsFresh get_state) where
  receiver_balances-fresh :
      (cp : Option (CurrencyPool api)) (a : Address) (rb : Map CurrencyId (AmountState api))
      (ams : List Amount) {rb' : Map CurrencyId (AmountState api)}
      → Entries IsFreshFor rb
      → receiver_balances cp get_state a rb ams ≡ ok rb'
      → Entries IsFreshFor rb'
  unfolding receiver_balances
  receiver_balances-fresh cp a rb [] {rb'} h e =
      let same : rb ≡ rb' = cc in subst (Entries IsFreshFor) same h
  receiver_balances-fresh cp a rb (am ∷ ams) h e = with_ok _ _ e λ u known r₁.
      with_ok (get_state (state_key_balance a am.cid)) _ r₁ λ r got rest.
        receiver_balances-fresh cp a (insert am.cid (new_amount_state r.0 am.cid) rb) ams
          (insert-Entries IsFreshFor am.cid (new_amount_state r.0 am.cid) rb
            (new_amount_state-IsFreshFor get_state a am.cid r.0 r.1 fresh got) h)
          rest

  pub item_pre_process-fresh :
      (cp : Option (CurrencyPool api)) (item : TransfersItem)
      {rb : Map CurrencyId (AmountState api)}
      → item_pre_process cp get_state item ≡ ok rb
      → Entries IsFreshFor rb
  unfolding item_pre_process
  item_pre_process-fresh cp item e =
      with_ok (exists_state (state_key_account item.receiver) get_state) _ e
        λ st found r. receiver_balances-fresh cp item.receiver [] item.amounts tt r

  -- All items of a processor together.
  items-delta :
      (cid : CurrencyId) (cp : Option (CurrencyPool api)) (items : List TransfersItem)
      {rb : List (TransfersItem × Map CurrencyId (AmountState api))} {sts : List (State api)}
      → items_pre_process cp get_state items ≡ ok rb
      → items_process rb ≡ ok sts
      → (delta cid sts ≡ amounts_total cid (all_amounts (map (λ it. it.amounts) items)))
        × (fee_total cid sts ≡ pos 0)
  unfolding items_pre_process items_process all_amounts amounts_total
  items-delta cid cp [] {rb} {sts} e p =
      let none_left : [] ≡ rb = cc in
      let p' = subst (λ r. items_process r ≡ ok sts) (sym none_left) p in
      let no_states : [] ≡ sts = cc in rw (← no_states) (unfold delta fee_total in (refl, refl))
  items-delta cid cp (item ∷ items) {rb = rb'} {sts = sts'} e p =
      with_ok (as_reason (item_pre_process cp get_state item)) _ e λ rb first r₁.
        with_ok (items_pre_process cp get_state items) _ r₁ λ rbs rest same.
          let shape : (item, rb) ∷ rbs ≡ rb' = cc in
          let p' = subst (λ r. items_process r ≡ ok sts') (sym shape) p in
          with_ok (as_reason (credit rb item.amounts)) _ p' λ s credited r₂.
            with_ok (items_process rbs) _ r₂ λ ss others same'.
              let shape' : s ++ ss ≡ sts' = cc in
              let (d, f) =
                credit-delta cid rb item.amounts
                  (item_pre_process-fresh cp item (as_reason-eq-ok _ first))
                  (as_reason-eq-ok _ credited) in
              let (ds, fs) = items-delta cid cp items rest others in
              rw (← shape') (
                delta-append cid s ss ∙ rw (d, ds) (sym (amounts_total-append cid item.amounts _)),
                fee_total-append cid s ss ∙ rw (f, fs) (omega int_laws),
              )

  -- When the preparation and the processing of a transfer succeed over a database that hands out
  -- only balances that have collected nothing, then in every currency what its emitted states add
  -- to the balances and the fees that they carry sum to zero, and those fees are the ones that the
  -- feeers of the pool charge for the amounts of its items.
  pub transfers-delta :
      (cid : CurrencyId) (cp : Option (CurrencyPool api)) (op : Transfers m)
      {opp : TransfersProcessor api} {sts : List (State api)}
      → pre_process cp get_state op ≡ ok opp
      → process opp ≡ ok sts
      → (delta cid sts +ℤ fee_total cid sts ≡ pos 0)
        × (fee_total cid sts
            ≡ charges_total cid cp (all_amounts (map (λ it. it.amounts) op.fact.items)))
  unfolding process
  transfers-delta cid cp op {opp} {sts} e p =
      let (known, calculated, enough, ready, signed) = pre_process-parts get_state cp op e in
      with_ok (items_process opp.rb) _ p λ s credited r₅.
        with_ok (debit opp.sb opp.required) _ r₅ λ t debited same.
          let shape : s ++ t ≡ sts = cc in
          let items = map (λ it. it.amounts) op.fact.items in
          let (d, f) = items-delta cid cp op.fact.items ready credited in
          let (ds, fs) =
            debit-delta cid opp.sb opp.required
              (check_enough_balance-IsFreshFor get_state fresh op.fact.sender opp.required enough)
              debited in
          let (ps, qs) = calculate_items_fee-sums cid cp items calculated in
          rw (← shape, delta-append cid s t, fee_total-append cid s t)
            (settle _ _ _ _ _ _ _ _ d f ds fs ps qs)
