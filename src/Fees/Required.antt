-- ===== src/Fees/Required.antt =====
-- currency/create_accounts_process.go: `CalculateItemsFee` adds up, for each currency, the amounts
-- and the fees of all items.
use mitum_currency.Prelude.{
  Option, none, some, List, [], ◌∷◌, ◌++◌, Result, ok, err, ◌≡◌, refl, ap, subst, ◌∙◌,
  if◌then◌else◌, inl, inr, Bool-cases, Option-cases, with_ok, ◌>>=◌,
}
use mitum_currency.Prelude.Int.{ℤ, pos, ◌+ℤ◌, int_laws, +ℤ_assoc}
use mitum_currency.Prelude.Bytes.{bytes_eq_instance}
use mitum_currency.Prelude.Map.{lookup, lookup_or, insert}
use mitum_currency.Prelude.Sums.{sum_at, at_key, measure_at, sum_at-insert, at_key-add}
use mitum_currency.Mitum.{Mitum}
use mitum_currency.CurrencyId.{CurrencyId}
use mitum_currency.Big
use mitum_currency.Big.{Big, zero_big, over_zero}
use mitum_currency.Big.Laws.{val, add-val}
use mitum_currency.Feeer
use mitum_currency.Design.{Amount}
use mitum_currency.State.{StateApi}
use mitum_currency.Pool
use mitum_currency.Pool.{CurrencyPool}
use mitum_currency.Fees.{
  Required, require, require_amount, require_amounts, require_items, calculate_items_fee,
}

-- What the sender pays in a currency, fees included, and the fees alone.
abbrev pub paid : Big × Big → ℤ
paid rq = val rq.0

abbrev pub fees : Big × Big → ℤ
fees rq = val rq.1

-- The fee of an amount: none without a pool or a feeer, nor below one.
unfoldable pub fee_over_zero : Result Big → ℤ
fee_over_zero (ok k) = if over_zero k then val k else pos 0
fee_over_zero (err e) = pos 0

-- What the items' amounts come to in a currency, and their fees.
unfoldable pub amounts_total : CurrencyId → List Amount → ℤ
amounts_total cid [] = pos 0
amounts_total cid (am ∷ ams) = at_key cid am.cid (val am.big) +ℤ amounts_total cid ams

module _ {m : Mitum} {api : StateApi m} where
  unfoldable pub charged : Option (CurrencyPool api) → Amount → ℤ
  charged none am = pos 0
  charged (some p) am = elim (Pool.feeer p am.cid) [
    | none ↦ pos 0
    | some feeer ↦ fee_over_zero (Feeer.fee feeer am.big)
  ]

  unfoldable pub charges_total : CurrencyId → Option (CurrencyPool api) → List Amount → ℤ
  charges_total cid cp [] = pos 0
  charges_total cid cp (am ∷ ams) = at_key cid am.cid (charged cp am) +ℤ charges_total cid cp ams

-- An entry of `required` grows by the amount and by its fee.
Grows : CurrencyId → Amount → ℤ → Required → Required → Type 0
Grows cid am k r r' =
    (sum_at paid cid r' ≡ sum_at paid cid r +ℤ at_key cid am.cid (val am.big +ℤ k))
    × (sum_at fees cid r' ≡ sum_at fees cid r +ℤ at_key cid am.cid k)

measure-lookup_or :
    (p : Big × Big → ℤ) (c : CurrencyId) (r : Required)
    → p (zero_big, zero_big) ≡ pos 0
    → p (lookup_or c r (zero_big, zero_big)) ≡ measure_at p (lookup c r)
measure-lookup_or p c r h = elim (Option-cases (lookup c r)) [
  | inl absent ↦ rw (absent, lookup_or) h
  | inr (v, found) ↦ rw (found, lookup_or)
]

insert-Grows :
    (cid : CurrencyId) (am : Amount) (k : ℤ) (r : Required) (s f : Big)
    → val s ≡ val (lookup_or am.cid r (zero_big, zero_big)).0 +ℤ (val am.big +ℤ k)
    → val f ≡ val (lookup_or am.cid r (zero_big, zero_big)).1 +ℤ k
    → Grows cid am k r (insert am.cid (s, f) r)
unfolding Grows
insert-Grows cid am k r s f hs hf = (
  sum_at-insert paid cid am.cid (s, f) (val am.big +ℤ k) r
      (hs ∙ ap (λ x. x +ℤ (val am.big +ℤ k)) (measure-lookup_or paid am.cid r refl)),
  sum_at-insert fees cid am.cid (s, f) k r
      (hf ∙ ap (λ x. x +ℤ k) (measure-lookup_or fees am.cid r refl)),
)

-- The two branches of `require`, past the test.
with_fee-Grows :
    (cid : CurrencyId) (am : Amount) (k : Big) (r : Required) {r' : Required}
    → (let rq = lookup_or am.cid r (zero_big, zero_big) in
        do
          s ← Big.add rq.0 am.big
          t ← Big.add s k
          f ← Big.add rq.1 k
          ok (insert am.cid (t, f) r))
      ≡ ok r'
    → Grows cid am (val k) r r'
with_fee-Grows cid am k r {r'} e =
    with_ok (Big.add (lookup_or am.cid r (zero_big, zero_big)).0 am.big) _ e λ s e₁ r₁.
      with_ok (Big.add s k) _ r₁ λ t e₂ r₂.
        with_ok (Big.add (lookup_or am.cid r (zero_big, zero_big)).1 k) _ r₂ λ f e₃ r₃.
          let same : insert am.cid (t, f) r ≡ r' = cc in
          subst (Grows cid am (val k) r) same (
            insert-Grows cid am (val k) r t f
              (add-val s k e₂
                ∙ ap (λ x. x +ℤ val k) (add-val _ am.big e₁)
                ∙ +ℤ_assoc _ (val am.big) (val k))
              (add-val _ k e₃))

without_fee-Grows :
    (cid : CurrencyId) (am : Amount) (r : Required) {r' : Required}
    → (let rq = lookup_or am.cid r (zero_big, zero_big) in
        do s ← Big.add rq.0 am.big; ok (insert am.cid (s, rq.1) r))
      ≡ ok r'
    → Grows cid am (pos 0) r r'
without_fee-Grows cid am r {r'} e =
    with_ok (Big.add (lookup_or am.cid r (zero_big, zero_big)).0 am.big) _ e λ s e₁ r₁.
      let same : insert am.cid (s, (lookup_or am.cid r (zero_big, zero_big)).1) r ≡ r' = cc in
      subst (Grows cid am (pos 0) r) same (
        insert-Grows cid am (pos 0) r s (lookup_or am.cid r (zero_big, zero_big)).1
          (add-val _ am.big e₁ ∙ omega int_laws) (omega int_laws))

require-Grows :
    (cid : CurrencyId) (am : Amount) (k : Big) (r : Required) {r' : Required}
    → require r (lookup_or am.cid r (zero_big, zero_big)) am k ≡ ok r'
    → Grows cid am (fee_over_zero (ok k)) r r'
unfolding require fee_over_zero
require-Grows cid am k r {r'} e = elim (Bool-cases (over_zero k)) [
  | inl over ↦ rw over (with_fee-Grows cid am k r (rw (over, require) at e))
  | inr under ↦ rw under (without_fee-Grows cid am r (rw (under, require) at e))
]

-- The amounts of all items.
unfoldable pub all_amounts : List (List Amount) → List Amount
all_amounts [] = []
all_amounts (it ∷ items) = it ++ all_amounts items

pub amounts_total-append :
    (cid : CurrencyId) (xs ys : List Amount)
    → amounts_total cid (xs ++ ys) ≡ amounts_total cid xs +ℤ amounts_total cid ys
unfolding amounts_total
amounts_total-append cid [] ys = omega int_laws
amounts_total-append cid (x ∷ xs) ys = rw (amounts_total-append cid xs ys) (omega int_laws)

module _ {m : Mitum} {api : StateApi m} where
  pub charges_total-append :
      (cid : CurrencyId) (cp : Option (CurrencyPool api)) (xs ys : List Amount)
      → charges_total cid cp (xs ++ ys) ≡ charges_total cid cp xs +ℤ charges_total cid cp ys
  unfolding charges_total
  charges_total-append cid cp [] ys = omega int_laws
  charges_total-append cid cp (x ∷ xs) ys = rw (charges_total-append cid cp xs ys) (omega int_laws)

  require_amount-Grows :
      (cid : CurrencyId) (cp : Option (CurrencyPool api)) (r : Required) (am : Amount)
      {r' : Required}
      → require_amount cp r am ≡ ok r'
      → Grows cid am (charged cp am) r r'
  unfolding require_amount charged
  require_amount-Grows cid none r am e = without_fee-Grows cid am r e
  require_amount-Grows cid (some p) r am e = elim (Option-cases (Pool.feeer p am.cid)) [
    | inl absent ↦ absurd (let h = rw (absent, require_amount) at e in cc)
    | inr (feeer, found) ↦
        with_ok (Feeer.fee feeer am.big) _ (rw (found, require_amount) at e)
          λ k fee h. rw (found, charged, fee) (require-Grows cid am k r h)
  ]

  -- Required grows by the totals of a list of amounts.
  GrowsBy : CurrencyId → Option (CurrencyPool api) → List Amount → Required → Required → Type 0
  GrowsBy cid cp ams r r' =
      (sum_at paid cid r'
        ≡ sum_at paid cid r +ℤ (amounts_total cid ams +ℤ charges_total cid cp ams))
      × (sum_at fees cid r' ≡ sum_at fees cid r +ℤ charges_total cid cp ams)

  require_amounts-GrowsBy :
      (cid : CurrencyId) (cp : Option (CurrencyPool api)) (r : Required) (ams : List Amount)
      {r' : Required}
      → require_amounts cp r ams ≡ ok r'
      → GrowsBy cid cp ams r r'
  unfolding require_amounts GrowsBy amounts_total charges_total Grows
  require_amounts-GrowsBy cid cp r [] {r'} e =
      let same : r ≡ r' = cc in rw (← same) (omega int_laws, omega int_laws)
  require_amounts-GrowsBy cid cp r (am ∷ ams) e =
      with_ok (require_amount cp r am) _ e λ s first rest.
        let (p, f) = require_amount-Grows cid cp r am first in
        let (ps, fs) = require_amounts-GrowsBy cid cp s ams rest in
        (
          ps ∙ rw (p, at_key-add cid am.cid (val am.big) (charged cp am)) (omega int_laws),
          fs ∙ rw f (omega int_laws),
        )

  require_items-GrowsBy :
      (cid : CurrencyId) (cp : Option (CurrencyPool api)) (r : Required)
      (items : List (List Amount)) {r' : Required}
      → require_items cp r items ≡ ok r'
      → GrowsBy cid cp (all_amounts items) r r'
  unfolding require_items all_amounts GrowsBy
  require_items-GrowsBy cid cp r [] e = require_amounts-GrowsBy cid cp r [] e
  require_items-GrowsBy cid cp r (it ∷ items) e =
      with_ok (require_amounts cp r it) _ e λ s first rest.
        let (p, f) = require_amounts-GrowsBy cid cp r it first in
        let (ps, fs) = require_items-GrowsBy cid cp s items rest in
        (
          ps
              ∙ rw
                  (
                    p,
                    amounts_total-append cid it (all_amounts items),
                    charges_total-append cid cp it (all_amounts items),
                  )
                  (omega int_laws),
          fs ∙ rw (f, charges_total-append cid cp it (all_amounts items)) (omega int_laws),
        )

  -- If `CalculateItemsFee` succeeds, the required sum of every currency is the sum of the amounts
  -- of the items in it and of the fees charged for them, and the required fee is the sum of those
  -- fees alone.
  pub calculate_items_fee-sums :
      (cid : CurrencyId) (cp : Option (CurrencyPool api)) (items : List (List Amount))
      {r : Required}
      → calculate_items_fee cp items ≡ ok r
      → (sum_at paid cid r
          ≡ amounts_total cid (all_amounts items) +ℤ charges_total cid cp (all_amounts items))
        × (sum_at fees cid r ≡ charges_total cid cp (all_amounts items))
  unfolding calculate_items_fee sum_at GrowsBy
  calculate_items_fee-sums cid cp items e =
      let (p, f) = require_items-GrowsBy cid cp [] items e in
      (p ∙ omega int_laws, f ∙ omega int_laws)
