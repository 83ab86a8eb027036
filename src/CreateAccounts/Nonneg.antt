-- ===== src/CreateAccounts/Nonneg.antt =====
-- currency/create_accounts_process.go: no state that an operation which opens accounts emits carries a negative fee.
use mitum_currency.Prelude.{
  Bool, Option, List, [], ◌∷◌, ◌++◌, map, Result, ok, ◌≡◌, sym, with_ok, subst, as_reason,
  as_reason-eq-ok, All,
}
use mitum_currency.Prelude.Bytes.{Bytes, bytes_eq_instance}
use mitum_currency.Mitum.{Mitum}
use mitum_currency.State.{StateApi, State}
use mitum_currency.Pool.{CurrencyPool}
use mitum_currency.Fees.Nonneg.{calculate_items_fee-HasNonnegFee}
use mitum_currency.Emission.{credit, debit}
use mitum_currency.Emission.Sender.{check_enough_balance-IsFreshFor}
use mitum_currency.Emission.Deltas.{ReadsFresh, ReadsPlainAccounts, IsPlain}
use mitum_currency.Emission.Nonneg.{IsNonneg, All-append, credit-IsNonneg, debit-IsNonneg}
use mitum_currency.Keys.{new_account_from_keys}
use mitum_currency.State.{
  set_state_account_value, account_value, set_value, plain_state, amount_state, Value,
}
use mitum_currency.CreateAccounts.{
  CreateAccounts, CreateAccountsItem, CreateAccountsProcessor, ItemProcessor, item_pre_process,
  item_process, items_pre_process, pre_process, items_process, process,
}
use mitum_currency.CreateAccounts.Deltas.{pre_process-parts, item_pre_process-IsReady, IsReady}

module _ {m : Mitum} {api : StateApi m} where
  pub set_value-IsNonneg :
      (st : State api) (v : Value m) {t : State api}
      → IsPlain st
      → set_value st v ≡ ok t
      → IsNonneg t
  unfolding set_value
  set_value-IsNonneg (plain_state st) v {t} p e =
      with_ok (api.set_value st v) _ e
        λ s set same. let shape : plain_state s ≡ t = cc in subst IsNonneg shape tt
  set_value-IsNonneg (amount_state st) v p e = absurd p

  item_process-IsNonneg :
      (item : CreateAccountsItem m) (c : ItemProcessor api) {sts : List (State api)}
      → IsReady item c
      → item_process c ≡ ok sts
      → All IsNonneg sts
  unfolding item_process IsReady set_state_account_value
  item_process-IsNonneg item c {sts = sts'} (same_item, plain, nb) e =
      with_ok (new_account_from_keys c.item.keys) _ e λ nac made r₁.
        with_ok (set_state_account_value c.ns nac) _ r₁ λ st set r₂.
          with_ok (credit c.nb c.item.amounts) _ r₂ λ sts credited same.
            let shape : st ∷ sts ≡ sts' = cc in
            subst (All IsNonneg) shape (
              set_value-IsNonneg c.ns (account_value nac) plain set,
              credit-IsNonneg c.nb c.item.amounts nb credited,
            )

module _ {m : Mitum} {api : StateApi m} (get_state : Bytes → Result (State api × Bool))
    (fresh : ReadsFresh get_state) (plain_accounts : ReadsPlainAccounts get_state) where
  items-IsNonneg :
      (cp : Option (CurrencyPool api)) (items : List (CreateAccountsItem m))
      {rb : List (ItemProcessor api)} {sts : List (State api)}
      → items_pre_process cp get_state items ≡ ok rb
      → items_process rb ≡ ok sts
      → All IsNonneg sts
  unfolding items_pre_process items_process
  items-IsNonneg cp [] {rb} {sts} e p =
      let none_left : [] ≡ rb = cc in
      let p' = subst (λ r. items_process r ≡ ok sts) (sym none_left) p in
      let no_states : [] ≡ sts = cc in subst (All IsNonneg) no_states tt
  items-IsNonneg cp (item ∷ items) {rb = rb'} {sts = sts'} e p =
      with_ok (as_reason (item_pre_process cp get_state item)) _ e λ rb first r₁.
        with_ok (items_pre_process cp get_state items) _ r₁ λ rbs rest same.
          let shape : rb ∷ rbs ≡ rb' = cc in
          let p' = subst (λ r. items_process r ≡ ok sts') (sym shape) p in
          with_ok (as_reason (item_process rb)) _ p' λ s credited r₂.
            with_ok (items_process rbs) _ r₂ λ ss others same'.
              let shape' : s ++ ss ≡ sts' = cc in
              subst (All IsNonneg) shape' (
                All-append s ss
                  (item_process-IsNonneg item rb
                    (item_pre_process-IsReady get_state fresh plain_accounts cp item
                      (as_reason-eq-ok _ first))
                    (as_reason-eq-ok _ credited))
                  (items-IsNonneg cp items rest others))

  pub process-IsNonneg :
      (cp : Option (CurrencyPool api)) (op : CreateAccounts m) {opp : CreateAccountsProcessor api}
      {sts : List (State api)}
      → pre_process cp get_state op ≡ ok opp
      → process opp ≡ ok sts
      → All IsNonneg sts
  unfolding process
  process-IsNonneg cp op {opp} {sts} e p =
      let (known, calculated, enough, ready, signed) = pre_process-parts get_state cp op e in
      with_ok (items_process opp.ns) _ p λ s credited r₅.
        with_ok (debit opp.sb opp.required) _ r₅ λ t debited same.
          let shape : s ++ t ≡ sts = cc in
          subst (All IsNonneg) shape (
            All-append s t (items-IsNonneg cp op.fact.items ready credited) (
              debit-IsNonneg opp.sb opp.required
                (check_enough_balance-IsFreshFor get_state fresh op.fact.sender opp.required enough)
                (calculate_items_fee-HasNonnegFee cp (map (λ it. it.amounts) op.fact.items)
                  calculated)
                debited))
