-- ===== src/State/Merging.antt =====
-- currency/amount_state.go: merging the states that a block's operations emit adds up their
-- amounts and their fees, whatever the number of operations.
use mitum_currency.Prelude.{
  none, some, Result, ok, ◌>>=◌, List, [], ◌∷◌, ◌≡◌, ap, ◌∙◌, arith, >>=-eq-ok, with_ok,
}
use mitum_currency.Prelude.Int.{ℤ, pos, ◌+ℤ◌, int_laws}
use mitum_currency.Mitum.{Mitum}
use mitum_currency.Big
use mitum_currency.Big.{Big, nil, int, zero_big}
use mitum_currency.Big.Laws.{val, add-val}
use mitum_currency.Design.{Amount, with_big, new_zero_amount}
use mitum_currency.State.{
  amount_value, StateApi, AmountState, State, plain_state, amount_state, merge, value_of, set_value,
  state_balance_value, balance_or_zero, fee_of_base, add_fee,
}

module _ {m : Mitum} {api : StateApi m} where
  -- The balance that a state shows, zero if it has none.
  unfoldable pub balance_of : State api → ℤ
  balance_of st = elim (value_of st) [
    | none ↦ pos 0
    | some v ↦ elim v [ amount_value am ↦ val am.big | _ ↦ pos 0 ]
  ]

  unfoldable pub fee_of : State api → ℤ
  fee_of (plain_state st) = pos 0
  fee_of (amount_state st) = val st.fee

  set_amount_value :
      (st : AmountState api) (am : Amount) {t : State api}
      → set_value (amount_state st) (amount_value am) ≡ ok t
      → (s : api.Base) × (t ≡ amount_state (record st { state = s }))
        × (api.value s ≡ some (amount_value am))
  unfolding set_value
  set_amount_value st am e =
      let (s, e₁, e₂) = >>=-eq-ok (api.set_value st.state (amount_value am)) _ e in
      (s, cc, api.value-set_value _ _ _ e₁)

  balance_or_zero-val :
      (base : State api) (cid : _) {am : Amount}
      → balance_or_zero (state_balance_value base) cid ≡ ok am
      → val am.big ≡ balance_of base
  unfolding balance_or_zero state_balance_value balance_of new_zero_amount
  balance_or_zero-val base cid e = ground arith

  balance_of_shape :
      (t : State api) (s : api.Base) (am : Amount) (st : AmountState api)
      → t ≡ amount_state (record st { state = s })
      → api.value s ≡ some (amount_value am)
      → balance_of t ≡ val am.big
  unfolding balance_of value_of
  balance_of_shape t s am st e h = rw (e, balance_of, value_of, h)

  add_fee-val :
      (st : AmountState api) (base : State api) {f : Big} {st' : AmountState api}
      → fee_of_base base ≡ ok f
      → add_fee st f ≡ ok st'
      → val st'.fee ≡ fee_of base +ℤ val st.fee
  unfolding fee_of_base add_fee fee_of
  add_fee-val st (plain_state base) e h = cc
  add_fee-val st (amount_state base) {f} e h =
      with_ok (Big.add st.fee f) _ h λ g sum same. grind (int_laws, add-val st.fee f sum)

  -- A merge adds the collected amount to the balance, and the fee to the fee.
  pub merge-adds :
      (st : AmountState api) (base : State api) {t : State api}
      → merge st base ≡ ok t
      → (balance_of t ≡ balance_of base +ℤ val st.add) × (fee_of t ≡ fee_of base +ℤ val st.fee)
  unfolding merge fee_of
  merge-adds st base {t} e =
      with_ok (balance_or_zero (state_balance_value base) st.cid) _ e λ am found r₁.
        with_ok (fee_of_base base) _ r₁ λ f base_fee r₂. with_ok (add_fee st f) _ r₂ λ st' added r₃.
          with_ok (Big.add am.big st.add) _ r₃ λ b sum r₄.
            let (s, shape, value) = set_amount_value st' (with_big am b) r₄ in
            (
              balance_of_shape t s (with_big am b) st' shape value
                  ∙ add-val am.big st.add sum
                  ∙ ap (λ x. x +ℤ val st.add) (balance_or_zero-val base st.cid found),
              cc (add_fee-val st base base_fee added, shape),
            )

  -- States merged one after another, the first one into `base`.
  unfoldable pub merge_all : List (AmountState api) → State api → Result (State api)
  merge_all [] base = ok base
  merge_all (st ∷ sts) base = do t ← merge st base; merge_all sts t

  abbrev pub sum_add : List (AmountState api) → ℤ
  sum_add [] = pos 0
  sum_add (st ∷ sts) = val st.add +ℤ sum_add sts

  abbrev pub sum_fee : List (AmountState api) → ℤ
  sum_fee [] = pos 0
  sum_fee (st ∷ sts) = val st.fee +ℤ sum_fee sts

  -- If states of balances are merged one after another into a stored one, the balance that comes
  -- out is the stored one and the sum of the added amounts, and the fee is the stored one and the
  -- sum of the fees.
  pub merge_all-adds :
      (sts : List (AmountState api)) (base : State api) {t : State api}
      → merge_all sts base ≡ ok t
      → (balance_of t ≡ balance_of base +ℤ sum_add sts) × (fee_of t ≡ fee_of base +ℤ sum_fee sts)
  unfolding merge_all
  merge_all-adds [] base e = (grind int_laws, grind int_laws)
  merge_all-adds (st ∷ sts) base e = with_ok (merge st base) _ e λ u first rest.
      let (b, f) = merge-adds st base first in
      let (bs, fs) = merge_all-adds sts u rest in
      (bs ∙ rw b (omega int_laws), fs ∙ rw f (omega int_laws))
