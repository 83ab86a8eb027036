-- ===== src/Fees/Nonneg.antt =====
-- currency/create_accounts_process.go: no fee that `CalculateItemsFee` asks for is negative.
use mitum_currency.Prelude.{
  Option, none, some, List, [], ◌∷◌, ok, ◌≡◌, sym, arith, inl, inr, Bool-cases, Option-cases,
  with_ok, subst,
}
use mitum_currency.Prelude.Int.{ℤ, pos, ◌+ℤ◌, ◌≤ℤ◌, int_laws}
use mitum_currency.Prelude.Bytes.{bytes_eq_instance}
use mitum_currency.Prelude.Map.{lookup, lookup_or, insert, Entries, insert-Entries, lookup-Entries}
use mitum_currency.Mitum.{Mitum}
use mitum_currency.CurrencyId.{CurrencyId}
use mitum_currency.Big
use mitum_currency.Big.{Big, zero_big, over_zero}
use mitum_currency.Big.Laws.{val, add-val, over_zero-val}
use mitum_currency.Feeer
use mitum_currency.Design.{Amount}
use mitum_currency.State.{StateApi}
use mitum_currency.Pool
use mitum_currency.Pool.{CurrencyPool}
use mitum_currency.Fees.{
  Required, require, require_amount, require_amounts, require_items, calculate_items_fee,
}

abbrev pub HasNonnegFee : CurrencyId → Big × Big → Type 0
HasNonnegFee cid rq = pos 0 ≤ℤ val rq.1

lookup_or-HasNonnegFee :
    (cid : CurrencyId) (r : Required)
    → Entries HasNonnegFee r
    → HasNonnegFee cid (lookup_or cid r (zero_big, zero_big))
lookup_or-HasNonnegFee cid r h = elim (Option-cases (lookup cid r)) [
  | inl absent ↦ rw (absent, lookup_or) (omega arith)
  | inr (rq, found) ↦ rw (found, lookup_or) (lookup-Entries HasNonnegFee cid r h found)
]

nonneg_add : (a b c : ℤ) → c ≡ a +ℤ b → pos 0 ≤ℤ a → pos 0 ≤ℤ b → pos 0 ≤ℤ c
nonneg_add a b c e h k = subst (λ x. pos 0 ≤ℤ x) (sym e) (omega int_laws)

require-HasNonnegFee :
    (am : Amount) (k : Big) (r : Required) {r' : Required}
    → Entries HasNonnegFee r
    → require r (lookup_or am.cid r (zero_big, zero_big)) am k ≡ ok r'
    → Entries HasNonnegFee r'
unfolding require
require-HasNonnegFee am k r {r'} h e = elim (Bool-cases (over_zero k)) [
  | inl over ↦
      with_ok (Big.add (lookup_or am.cid r (zero_big, zero_big)).0 am.big) _
        (rw (over, require) at e)
        λ s e₁ r₁. with_ok (Big.add s k) _ r₁ λ t e₂ r₂.
          with_ok (Big.add (lookup_or am.cid r (zero_big, zero_big)).1 k) _ r₂ λ f e₃ same.
            let shape : insert am.cid (t, f) r ≡ r' = cc in
            let positive = over_zero-val k over in
            subst (Entries HasNonnegFee) shape (
              insert-Entries HasNonnegFee am.cid (t, f) r
                (nonneg_add _ (val k) (val f) (add-val _ k e₃) (lookup_or-HasNonnegFee am.cid r h)
                  (omega arith))
                h)
  | inr under ↦
      with_ok (Big.add (lookup_or am.cid r (zero_big, zero_big)).0 am.big) _
        (rw (under, require) at e)
        λ s e₁ same.
          let shape : insert am.cid (s, (lookup_or am.cid r (zero_big, zero_big)).1) r ≡ r' = cc in
          subst (Entries HasNonnegFee) shape (
            insert-Entries HasNonnegFee am.cid (s, (lookup_or am.cid r (zero_big, zero_big)).1) r
              (lookup_or-HasNonnegFee am.cid r h) h)
]

module _ {m : Mitum} {api : StateApi m} where
  require_amount-HasNonnegFee :
      (cp : Option (CurrencyPool api)) (am : Amount) (r : Required) {r' : Required}
      → Entries HasNonnegFee r
      → require_amount cp r am ≡ ok r'
      → Entries HasNonnegFee r'
  unfolding require_amount
  require_amount-HasNonnegFee none am r {r'} h e =
      with_ok (Big.add (lookup_or am.cid r (zero_big, zero_big)).0 am.big) _ e λ s e₁ same.
        let shape : insert am.cid (s, (lookup_or am.cid r (zero_big, zero_big)).1) r ≡ r' = cc in
        subst (Entries HasNonnegFee) shape (
          insert-Entries HasNonnegFee am.cid (s, (lookup_or am.cid r (zero_big, zero_big)).1) r
            (lookup_or-HasNonnegFee am.cid r h) h)
  require_amount-HasNonnegFee (some p) am r h e = elim (Option-cases (Pool.feeer p am.cid)) [
    | inl absent ↦ absurd (let f = rw (absent, require_amount) at e in cc)
    | inr (feeer, found) ↦
        with_ok (Feeer.fee feeer am.big) _ (rw (found, require_amount) at e)
          λ k fee rest. require-HasNonnegFee am k r h rest
  ]

  require_amounts-HasNonnegFee :
      (cp : Option (CurrencyPool api)) (r : Required) (ams : List Amount) {r' : Required}
      → Entries HasNonnegFee r
      → require_amounts cp r ams ≡ ok r'
      → Entries HasNonnegFee r'
  unfolding require_amounts
  require_amounts-HasNonnegFee cp r [] {r'} h e =
      let same : r ≡ r' = cc in subst (Entries HasNonnegFee) same h
  require_amounts-HasNonnegFee cp r (am ∷ ams) h e =
      with_ok (require_amount cp r am) _ e λ s first rest.
        require_amounts-HasNonnegFee cp s ams (require_amount-HasNonnegFee cp am r h first) rest

  require_items-HasNonnegFee :
      (cp : Option (CurrencyPool api)) (r : Required) (items : List (List Amount)) {r' : Required}
      → Entries HasNonnegFee r
      → require_items cp r items ≡ ok r'
      → Entries HasNonnegFee r'
  unfolding require_items
  require_items-HasNonnegFee cp r [] {r'} h e =
      let same : r ≡ r' = cc in subst (Entries HasNonnegFee) same h
  require_items-HasNonnegFee cp r (it ∷ items) h e =
      with_ok (require_amounts cp r it) _ e λ s first rest.
        require_items-HasNonnegFee cp s items (require_amounts-HasNonnegFee cp r it h first) rest

  pub calculate_items_fee-HasNonnegFee :
      (cp : Option (CurrencyPool api)) (items : List (List Amount)) {r : Required}
      → calculate_items_fee cp items ≡ ok r
      → Entries HasNonnegFee r
  unfolding calculate_items_fee
  calculate_items_fee-HasNonnegFee cp items e = require_items-HasNonnegFee cp [] items tt e
