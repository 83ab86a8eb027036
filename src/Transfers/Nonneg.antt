-- ===== src/Transfers/Nonneg.antt =====
-- currency/transfers_process.go: no state that a transfer emits carries a negative fee.
use mitum_currency.Prelude.{
  Bool, Option, List, [], ◌∷◌, ◌++◌, map, Result, ok, ◌≡◌, sym, with_ok, subst, as_reason,
  as_reason-eq-ok, All,
}
use mitum_currency.Prelude.Bytes.{Bytes, bytes_eq_instance}
use mitum_currency.Prelude.Map.{Map}
use mitum_currency.Mitum.{Mitum}
use mitum_currency.CurrencyId.{CurrencyId}
use mitum_currency.State.{StateApi, State, AmountState}
use mitum_currency.Pool.{CurrencyPool}
use mitum_currency.Fees.Nonneg.{calculate_items_fee-HasNonnegFee}
use mitum_currency.Emission.{credit, debit}
use mitum_currency.Emission.Sender.{check_enough_balance-IsFreshFor}
use mitum_currency.Emission.Deltas.{ReadsFresh}
use mitum_currency.Emission.Nonneg.{IsNonneg, All-append, credit-IsNonneg, debit-IsNonneg}
use mitum_currency.Transfers.{
  Transfers, TransfersItem, TransfersProcessor, item_pre_process, items_pre_process, pre_process,
  items_process, process,
}
use mitum_currency.Transfers.Deltas.{pre_process-parts, item_pre_process-fresh}

module _ {m : Mitum} {api : StateApi m} (get_state : Bytes → Result (State api × Bool))
    (fresh : ReadsFresh get_state) where
  items-IsNonneg :
      (cp : Option (CurrencyPool api)) (items : List TransfersItem)
      {rb : List (TransfersItem × Map CurrencyId (AmountState api))} {sts : List (State api)}
      → items_pre_process cp get_state items ≡ ok rb
      → items_process rb ≡ ok sts
      → All IsNonneg sts
  unfolding items_pre_process items_process
  items-IsNonneg cp [] {rb} {sts} e p =
      let none_left : [] ≡ rb = cc in
      let p' = subst (λ r. items_process r ≡ ok sts) (sym none_left) p in
      let no_states : [] ≡ sts = cc in subst (All IsNonneg) no_states tt
  items-IsNonneg cp (item ∷ items) {rb = rb'} {sts = sts'} e p =
      with_ok (as_reason (item_pre_process cp get_state item)) _ e λ rb first r₁.
        with_ok (items_pre_process cp get_state items) _ r₁ λ rbs rest same.
          let shape : (item, rb) ∷ rbs ≡ rb' = cc in
          let p' = subst (λ r. items_process r ≡ ok sts') (sym shape) p in
          with_ok (as_reason (credit rb item.amounts)) _ p' λ s credited r₂.
            with_ok (items_process rbs) _ r₂ λ ss others same'.
              let shape' : s ++ ss ≡ sts' = cc in
              subst (All IsNonneg) shape' (
                All-append s ss
                  (credit-IsNonneg rb item.amounts
                    (item_pre_process-fresh get_state fresh cp item (as_reason-eq-ok _ first))
                    (as_reason-eq-ok _ credited))
                  (items-IsNonneg cp items rest others))

  pub process-IsNonneg :
      (cp : Option (CurrencyPool api)) (op : Transfers m) {opp : TransfersProcessor api}
      {sts : List (State api)}
      → pre_process cp get_state op ≡ ok opp
      → process opp ≡ ok sts
      → All IsNonneg sts
  unfolding process
  process-IsNonneg cp op {opp} {sts} e p =
      let (known, calculated, enough, ready, signed) = pre_process-parts get_state cp op e in
      with_ok (items_process opp.rb) _ p λ s credited r₅.
        with_ok (debit opp.sb opp.required) _ r₅ λ t debited same.
          let shape : s ++ t ≡ sts = cc in
          subst (All IsNonneg) shape (
            All-append s t (items-IsNonneg cp op.fact.items ready credited) (
              debit-IsNonneg opp.sb opp.required
                (check_enough_balance-IsFreshFor get_state fresh op.fact.sender opp.required enough)
                (calculate_items_fee-HasNonnegFee cp (map (λ it. it.amounts) op.fact.items)
                  calculated)
                debited))
