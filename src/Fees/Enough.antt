-- ===== src/Fees/Enough.antt =====
-- currency/create_accounts_process.go: `CheckEnoughBalance` passes only what the holder can pay,
-- and returns the states of the holder's balances.
use mitum_currency.Prelude.{
  Bool, true, not, [], ◌∷◌, Result, ok, ◌≡◌, refl, ap, ◌∙◌, arith, with_ok, guard-eq-ok,
  as_reason-eq-ok, guard, as_reason, reason, insufficient_balance, subst, not_exist,
}
use mitum_currency.Prelude.Int.{◌≤ℤ◌}
use mitum_currency.Prelude.Bytes.{Bytes, bytes_eq_instance}
use mitum_currency.Prelude.Map.{Map, insert, Entries, insert-Entries}
use mitum_currency.Mitum.{Mitum}
use mitum_currency.CurrencyId.{CurrencyId}
use mitum_currency.StateKey.{Address, state_key_balance}
use mitum_currency.Big.{Big, compare_big, is_lt}
use mitum_currency.Big.Laws.{val, compare_big-ge}
use mitum_currency.Design.{Amount}
use mitum_currency.State.{
  StateApi, State, AmountState, new_amount_state, state_balance_value, exists_state,
}
use mitum_currency.State.Merging.{balance_of}
use mitum_currency.Fees.{Required, collect_balances, check_enough_balance}

module _ {m : Mitum} {api : StateApi m} (get_state : Bytes → Result (State api × Bool)) where
  -- A state that was read for the balance of `holder` in a currency.
  unfoldable pub IsReadFor : Address → CurrencyId → AmountState api → Type 0
  IsReadFor holder cid s =
      (st : State api) × (get_state (state_key_balance holder cid) ≡ ok (st, true))
      × (s ≡ new_amount_state st cid)

  -- The holder's balance in a currency is there and covers what is required.
  unfoldable pub Covers : Address → CurrencyId → Big × Big → Type 0
  Covers holder cid rq =
      (st : State api) × (get_state (state_key_balance holder cid) ≡ ok (st, true))
      × (val rq.0 ≤ℤ balance_of st)

  exists_state-found :
      (k : Bytes) {st : State api} → exists_state k get_state ≡ ok st → get_state k ≡ ok (st, true)
  unfolding exists_state
  exists_state-found k {st} e = with_ok (get_state k) _ e λ r got rest.
      with_ok (guard r.1 (reason not_exist)) _ rest λ u found same.
        let flag : r.1 ≡ true = guard-eq-ok r.1 _ found in
        let here : r.0 ≡ st = cc in got ∙ ap ok (λ i. (here i, flag i))

  state_balance_value-balance :
      (st : State api) {am : Amount} → state_balance_value st ≡ ok am → val am.big ≡ balance_of st
  unfolding state_balance_value balance_of
  state_balance_value-balance st e = ground arith

  -- One round of the loop.
  collect-step :
      (holder : Address) (cid : CurrencyId) (rq : Big × Big) (required : Required)
      (sb : Map CurrencyId (AmountState api)) {sb' : Map CurrencyId (AmountState api)}
      → collect_balances holder ((cid, rq) ∷ required) get_state sb ≡ ok sb'
      → (st : State api) × (get_state (state_key_balance holder cid) ≡ ok (st, true))
        × (val rq.0 ≤ℤ balance_of st)
        × (collect_balances holder required get_state (insert cid (new_amount_state st cid) sb)
            ≡ ok sb')
  unfolding collect_balances
  collect-step holder cid rq required sb e =
      with_ok (exists_state (state_key_balance holder cid) get_state) _ e λ st found r₁.
        with_ok (as_reason (state_balance_value st)) _ r₁ λ am amount r₂.
          with_ok (compare_big am.big rq.0) _ r₂ λ o compared r₃.
            with_ok (guard (not (is_lt o)) (reason insufficient_balance)) _ r₃ λ u enough r₄. (
              st,
              exists_state-found (state_key_balance holder cid) found,
              subst (λ b. val rq.0 ≤ℤ b) (state_balance_value-balance st (as_reason-eq-ok _ amount))
                  (compare_big-ge am.big rq.0 compared (ground (arith, guard-eq-ok _ _ enough))),
              r₄,
            )

  -- Every state that is collected was read for the holder.
  collect-IsReadFor :
      (holder : Address) (required : Required) (sb : Map CurrencyId (AmountState api))
      {sb' : Map CurrencyId (AmountState api)}
      → Entries (IsReadFor holder) sb
      → collect_balances holder required get_state sb ≡ ok sb'
      → Entries (IsReadFor holder) sb'
  unfolding IsReadFor collect_balances
  collect-IsReadFor holder [] sb {sb'} h e =
      let same : sb ≡ sb' = cc in subst (Entries (IsReadFor holder)) same h
  collect-IsReadFor holder ((cid, rq) ∷ required) sb h e =
      let (st, found, enough, rest) = collect-step holder cid rq required sb e in
      collect-IsReadFor holder required (insert cid (new_amount_state st cid) sb)
        (insert-Entries (IsReadFor holder) cid (new_amount_state st cid) sb (st, found, refl) h)
        rest

  collect-Covers :
      (holder : Address) (required : Required) (sb : Map CurrencyId (AmountState api))
      {sb' : Map CurrencyId (AmountState api)}
      → collect_balances holder required get_state sb ≡ ok sb'
      → Entries (Covers holder) required
  unfolding Covers
  collect-Covers holder [] sb e = tt
  collect-Covers holder ((cid, rq) ∷ required) sb e =
      let (st, found, enough, rest) = collect-step holder cid rq required sb e in
      (
        (st, found, enough),
        collect-Covers holder required (insert cid (new_amount_state st cid) sb) rest,
      )

  -- If `CheckEnoughBalance` succeeds, then for every required currency the holder has a balance in
  -- the database that is not below the required sum.
  pub check_enough_balance-Covers :
      (holder : Address) (required : Required) {sb : Map CurrencyId (AmountState api)}
      → check_enough_balance holder required get_state ≡ ok sb
      → Entries (Covers holder) required
  unfolding check_enough_balance
  check_enough_balance-Covers holder required e = collect-Covers holder required [] e

  pub check_enough_balance-IsReadFor :
      (holder : Address) (required : Required) {sb : Map CurrencyId (AmountState api)}
      → check_enough_balance holder required get_state ≡ ok sb
      → Entries (IsReadFor holder) sb
  unfolding check_enough_balance
  check_enough_balance-IsReadFor holder required e = collect-IsReadFor holder required [] tt e
