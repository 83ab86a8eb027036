-- ===== src/Operations/Collecting.antt =====
-- currency/operation_processor.go: `setState` collects every fee that the states carry.
use mitum_currency.Prelude.{
  false, List, [], ◌∷◌, ok, ◌≡◌, refl, ap, ◌∙◌, arith, inl, inr, Bool-cases, Option-cases, with_ok,
  All,
}
use mitum_currency.Prelude.Int.{ℤ, pos, ◌+ℤ◌, ◌≤ℤ◌, int_laws}
use mitum_currency.Prelude.Bytes.{bytes_eq_instance}
use mitum_currency.Prelude.Map.{Map, lookup, lookup_or, insert}
use mitum_currency.Prelude.Sums.{sum_at, measure_at, sum_at-insert, at_key-zero}
use mitum_currency.Mitum.{Mitum}
use mitum_currency.CurrencyId.{CurrencyId}
use mitum_currency.Big
use mitum_currency.Big.{Big, nil, int, zero_big, over_zero}
use mitum_currency.Big.Laws.{val, add-val}
use mitum_currency.State.{StateApi, State, plain_state, amount_state}
use mitum_currency.Emission.Deltas.{fee_total}
use mitum_currency.Emission.Nonneg.{IsNonneg}
use mitum_currency.Operations.{OperationProcessor, collect_fees, set_state}

-- What is collected in a currency.
abbrev pub collected : CurrencyId → Map CurrencyId Big → ℤ
collected cid fee = sum_at val cid fee

not_over_zero-val : (a : Big) → over_zero a ≡ false → pos 0 ≤ℤ val a → val a ≡ pos 0
unfolding over_zero
not_over_zero-val nil e h = refl
not_over_zero-val (int a) e h = ground arith

measure-lookup_or :
    (c : CurrencyId) (fee : Map CurrencyId Big)
    → val (lookup_or c fee zero_big) ≡ measure_at val (lookup c fee)
measure-lookup_or c fee = elim (Option-cases (lookup c fee)) [
  | inl absent ↦ rw (absent, lookup_or)
  | inr (v, found) ↦ rw (found, lookup_or)
]

module _ {m : Mitum} {api : StateApi m} where
  pub collect_fees-sums :
      (cid : CurrencyId) (fee : Map CurrencyId Big) (sts : List (State api))
      {fee' : Map CurrencyId Big}
      → All IsNonneg sts
      → collect_fees fee sts ≡ ok fee'
      → collected cid fee' ≡ collected cid fee +ℤ fee_total cid sts
  unfolding collect_fees fee_total
  collect_fees-sums cid fee [] {fee'} h e =
      let same : fee ≡ fee' = cc in rw (← same) (omega int_laws)
  collect_fees-sums cid fee (plain_state st ∷ sts) h e = collect_fees-sums cid fee sts h.1 e
  collect_fees-sums cid fee (amount_state t ∷ sts) h e = elim (Bool-cases (over_zero t.fee)) [
    | inl over ↦
        with_ok (Big.add (lookup_or t.cid fee zero_big) t.fee) _ (rw (over, collect_fees) at e)
          λ f added rest.
            collect_fees-sums cid (insert t.cid f fee) sts h.1 rest
            ∙ rw
                (sum_at-insert val cid t.cid f (val t.fee) fee
                  (add-val _ t.fee added ∙ ap (λ x. x +ℤ val t.fee) (measure-lookup_or t.cid fee)))
                (omega int_laws)
    | inr under ↦
        collect_fees-sums cid fee sts h.1 (rw (under, collect_fees) at e)
        ∙ rw (not_over_zero-val t.fee under h.0, at_key-zero cid t.cid) (omega int_laws)
  ]

  -- If `setState` succeeds on states of which none carries a negative fee, then in every currency
  -- the collected fees grow by exactly the fees that the states carry, and the states are handed
  -- on as they are.
  pub set_state-collects :
      (cid : CurrencyId) (opr : OperationProcessor) (sts : List (State api))
      {opr' : OperationProcessor} {handed : List (State api)}
      → All IsNonneg sts
      → set_state opr sts ≡ ok (opr', handed)
      → (collected cid opr'.fee ≡ collected cid opr.fee +ℤ fee_total cid sts) × (handed ≡ sts)
  unfolding set_state
  set_state-collects cid opr sts {opr'} {handed} h e =
      with_ok (collect_fees opr.fee sts) _ e λ fee sums same.
        let states : handed ≡ sts = cc in
        let shape : fee ≡ opr'.fee = cc in
        (rw (← shape) (collect_fees-sums cid opr.fee sts h sums), states)
