-- ===== src/Emission/Nonneg.antt =====
-- currency/transfers_process.go and currency/create_accounts_process.go: no emitted state carries a
-- negative fee.
use mitum_currency.Prelude.{
  List, [], ◌∷◌, ◌++◌, ok, ◌≡◌, sym, arith, inl, inr, Option-cases, with_ok, subst, All,
}
use mitum_currency.Prelude.Int.{pos, ◌≤ℤ◌}
use mitum_currency.Prelude.Bytes.{bytes_eq_instance}
use mitum_currency.Prelude.Map.{Map, lookup, Entries, lookup-Entries}
use mitum_currency.Mitum.{Mitum}
use mitum_currency.CurrencyId.{CurrencyId}
use mitum_currency.Big.Laws.{val}
use mitum_currency.Design.{Amount}
use mitum_currency.State.{
  StateApi, State, AmountState, plain_state, amount_state, add_amount, sub_amount, add_fee,
}
use mitum_currency.Fees.{Required}
use mitum_currency.Fees.Nonneg.{HasNonnegFee}
use mitum_currency.Emission.{credit, debit}
use mitum_currency.Emission.Deltas.{
  IsFreshFor, add_amount-Collected, sub_amount-Collected, add_fee-Collected,
}

module _ {m : Mitum} {api : StateApi m} where
  abbrev pub IsNonneg : State api → Type 0
  IsNonneg (plain_state st) = Unit {0}
  IsNonneg (amount_state st) = pos 0 ≤ℤ val st.fee

  pub All-append :
      (xs ys : List (State api)) → All IsNonneg xs → All IsNonneg ys → All IsNonneg (xs ++ ys)
  All-append [] ys h k = k
  All-append (x ∷ xs) ys h k = (h.0, All-append xs ys h.1 k)

  pub credit-IsNonneg :
      (rb : Map CurrencyId (AmountState api)) (ams : List Amount) {sts : List (State api)}
      → Entries IsFreshFor rb
      → credit rb ams ≡ ok sts
      → All IsNonneg sts
  unfolding credit
  credit-IsNonneg rb [] {sts} h e = let same : [] ≡ sts = cc in subst (All IsNonneg) same tt
  credit-IsNonneg rb (am ∷ ams) {sts = sts'} h e = elim (Option-cases (lookup am.cid rb)) [
    | inl absent ↦ absurd (let f = rw (absent, credit) at e in cc)
    | inr (st, found) ↦ with_ok (add_amount st am.big) _ (rw (found, credit) at e) λ s added r₁.
        with_ok (credit rb ams) _ r₁ λ sts rest same.
          let shape : amount_state s ∷ sts ≡ sts' = cc in
          let (c, z, f) =
            add_amount-Collected am.cid st am.big (lookup-Entries IsFreshFor am.cid rb h found)
              added in
          subst (All IsNonneg) shape
            (subst (λ x. pos 0 ≤ℤ x) (sym f) (omega arith), credit-IsNonneg rb ams h rest)
  ]

  pub debit-IsNonneg :
      (sb : Map CurrencyId (AmountState api)) (required : Required) {sts : List (State api)}
      → Entries IsFreshFor sb
      → Entries HasNonnegFee required
      → debit sb required ≡ ok sts
      → All IsNonneg sts
  unfolding debit
  debit-IsNonneg sb [] {sts} h k e = let same : [] ≡ sts = cc in subst (All IsNonneg) same tt
  debit-IsNonneg sb ((c, rq) ∷ required) {sts = sts'} h k e = elim (Option-cases (lookup c sb)) [
    | inl absent ↦ absurd (let f = rw (absent, debit) at e in cc)
    | inr (st, found) ↦ with_ok (sub_amount st rq.0) _ (rw (found, debit) at e) λ s taken r₁.
        with_ok (add_fee s rq.1) _ r₁ λ t charged r₂.
          with_ok (debit sb required) _ r₂ λ sts rest same.
            let shape : amount_state t ∷ sts ≡ sts' = cc in
            let (d, z, f) =
              add_fee-Collected c _ s rq.1
                (sub_amount-Collected c st rq.0 (lookup-Entries IsFreshFor c sb h found) taken)
                charged in
            subst (All IsNonneg) shape
              (subst (λ x. pos 0 ≤ℤ x) (sym f) k.0, debit-IsNonneg sb required h k.1 rest)
  ]
