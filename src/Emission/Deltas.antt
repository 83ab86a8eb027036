-- ===== src/Emission/Deltas.antt =====
-- currency/transfers_process.go and currency/create_accounts_process.go: what the emitted states
-- add to the balances of a currency, and the fees that they carry.
use mitum_currency.Prelude.{
  Bool, List, [], ◌∷◌, ◌++◌, Result, ok, ◌≡◌, refl, sym, ap, ◌∙◌, inl, inr, with_ok, subst,
  Option-cases,
}
use mitum_currency.Prelude.Int.{ℤ, pos, ◌+ℤ◌, ◌-ℤ◌, int_laws, +ℤ_swap_middle}
use mitum_currency.Prelude.Bytes.{Bytes, bytes_eq_instance}
use mitum_currency.Prelude.Map.{Map, lookup, Entries, lookup-Entries}
use mitum_currency.Prelude.Sums.{at_key, sum_at, at_key-zero, at_key-add}
use mitum_currency.Mitum.{Mitum}
use mitum_currency.CurrencyId.{CurrencyId}
use mitum_currency.StateKey.{Address, state_key_balance, state_key_account}
use mitum_currency.Big
use mitum_currency.Big.{Big}
use mitum_currency.Big.Laws.{val, add-val, sub-val}
use mitum_currency.Design.{Amount}
use mitum_currency.State.{
  StateApi, State, AmountState, plain_state, amount_state, new_amount_state, add_amount, sub_amount,
  add_fee, Value, set_value,
}
use mitum_currency.Fees.{Required}
use mitum_currency.Fees.Required.{amounts_total, paid, fees}
use mitum_currency.Emission.{credit, debit}

pub at_key-neg : (cid c : CurrencyId) (a : ℤ) → at_key cid c (pos 0 -ℤ a) +ℤ at_key cid c a ≡ pos 0
at_key-neg cid c a =
    sym (at_key-add cid c (pos 0 -ℤ a) a) ∙ ap (at_key cid c) (omega int_laws) ∙ at_key-zero cid c

module _ {m : Mitum} {api : StateApi m} where
  -- What a state adds to the balances of a currency, and the fee that it carries.
  unfoldable pub delta : CurrencyId → List (State api) → ℤ
  delta cid [] = pos 0
  delta cid (plain_state st ∷ sts) = delta cid sts
  delta cid (amount_state st ∷ sts) = at_key cid st.cid (val st.add) +ℤ delta cid sts

  unfoldable pub fee_total : CurrencyId → List (State api) → ℤ
  fee_total cid [] = pos 0
  fee_total cid (plain_state st ∷ sts) = fee_total cid sts
  fee_total cid (amount_state st ∷ sts) = at_key cid st.cid (val st.fee) +ℤ fee_total cid sts

  pub delta-append :
      (cid : CurrencyId) (xs ys : List (State api))
      → delta cid (xs ++ ys) ≡ delta cid xs +ℤ delta cid ys
  unfolding delta
  delta-append cid [] ys = omega int_laws
  delta-append cid (plain_state st ∷ xs) ys = delta-append cid xs ys
  delta-append cid (amount_state st ∷ xs) ys = rw (delta-append cid xs ys) (omega int_laws)

  pub fee_total-append :
      (cid : CurrencyId) (xs ys : List (State api))
      → fee_total cid (xs ++ ys) ≡ fee_total cid xs +ℤ fee_total cid ys
  unfolding fee_total
  fee_total-append cid [] ys = omega int_laws
  fee_total-append cid (plain_state st ∷ xs) ys = fee_total-append cid xs ys
  fee_total-append cid (amount_state st ∷ xs) ys = rw (fee_total-append cid xs ys) (omega int_laws)

  -- A state of a currency that has collected nothing yet.
  abbrev pub IsFreshFor : CurrencyId → AmountState api → Type 0
  IsFreshFor cid st = (st.cid ≡ cid) × (val st.add ≡ pos 0) × (val st.fee ≡ pos 0)

  -- The database and the pool of states hand out balances that have collected nothing yet.
  abbrev pub ReadsFresh : (Bytes → Result (State api × Bool)) → Type 0
  ReadsFresh get_state =
      (a : Address) (cid : CurrencyId) (st : AmountState api) (b : Bool)
      → get_state (state_key_balance a cid) ≡ ok (amount_state st, b)
      → IsFreshFor cid st

  pub new_amount_state-IsFreshFor :
      (get_state : Bytes → Result (State api × Bool)) (a : Address) (cid : CurrencyId)
      (st : State api) (b : Bool)
      → ReadsFresh get_state
      → get_state (state_key_balance a cid) ≡ ok (st, b)
      → IsFreshFor cid (new_amount_state st cid)
  unfolding new_amount_state
  new_amount_state-IsFreshFor get_state a cid (plain_state st) b h e = (refl, refl, refl)
  new_amount_state-IsFreshFor get_state a cid (amount_state st) b h e = h a cid st b e

  -- What a state has collected.
  abbrev pub Collected : CurrencyId → ℤ → ℤ → AmountState api → Type 0
  Collected cid a f st = (st.cid ≡ cid) × (val st.add ≡ a) × (val st.fee ≡ f)

  pub add_amount-Collected :
      (cid : CurrencyId) (st : AmountState api) (a : Big) {s : AmountState api}
      → IsFreshFor cid st
      → add_amount st a ≡ ok s
      → Collected cid (val a) (pos 0) s
  unfolding add_amount
  add_amount-Collected cid st a {s} (c, z, f) e = with_ok (Big.add st.add a) _ e λ b sum same.
      let shape : record st { add = b } ≡ s = cc in
      subst (Collected cid (val a) (pos 0)) shape
        (c, add-val st.add a sum ∙ rw z (omega int_laws), f)

  pub sub_amount-Collected :
      (cid : CurrencyId) (st : AmountState api) (a : Big) {s : AmountState api}
      → IsFreshFor cid st
      → sub_amount st a ≡ ok s
      → Collected cid (pos 0 -ℤ val a) (pos 0) s
  unfolding sub_amount
  sub_amount-Collected cid st a {s} (c, z, f) e = with_ok (Big.sub st.add a) _ e λ b sum same.
      let shape : record st { add = b } ≡ s = cc in
      subst (Collected cid (pos 0 -ℤ val a) (pos 0)) shape (c, sub-val st.add a sum ∙ rw z refl, f)

  pub add_fee-Collected :
      (cid : CurrencyId) (a : ℤ) (st : AmountState api) (g : Big) {s : AmountState api}
      → Collected cid a (pos 0) st
      → add_fee st g ≡ ok s
      → Collected cid a (val g) s
  unfolding add_fee
  add_fee-Collected cid a st g {s} (c, z, f) e = with_ok (Big.add st.fee g) _ e λ b sum same.
      let shape : record st { fee = b } ≡ s = cc in
      subst (Collected cid a (val g)) shape (c, z, add-val st.fee g sum ∙ rw f (omega int_laws))

  -- The sums with one more state in front.
  pub delta-cons :
      (cid c : CurrencyId) (a f : ℤ) (st : AmountState api) (sts : List (State api))
      → Collected c a f st
      → (delta cid (amount_state st ∷ sts) ≡ at_key cid c a +ℤ delta cid sts)
        × (fee_total cid (amount_state st ∷ sts) ≡ at_key cid c f +ℤ fee_total cid sts)
  unfolding delta fee_total
  delta-cons cid c a f st sts (k, z, g) = (rw (k, z), rw (k, g))

  -- Crediting the items' amounts adds up to them, and carries no fee.
  pub credit-delta :
      (cid : CurrencyId) (rb : Map CurrencyId (AmountState api)) (ams : List Amount)
      {sts : List (State api)}
      → Entries IsFreshFor rb
      → credit rb ams ≡ ok sts
      → (delta cid sts ≡ amounts_total cid ams) × (fee_total cid sts ≡ pos 0)
  unfolding credit amounts_total
  credit-delta cid rb [] {sts} h e =
      let same : [] ≡ sts = cc in rw (← same) (unfold delta fee_total in (refl, refl))
  credit-delta cid rb (am ∷ ams) {sts = sts'} h e = elim (Option-cases (lookup am.cid rb)) [
    | inl absent ↦ absurd (let f = rw (absent, credit) at e in cc)
    | inr (st, found) ↦ with_ok (add_amount st am.big) _ (rw (found, credit) at e) λ s added r₁.
        with_ok (credit rb ams) _ r₁ λ sts rest same.
          let shape : amount_state s ∷ sts ≡ sts' = cc in
          let fresh = lookup-Entries IsFreshFor am.cid rb h found in
          let (d, f) =
            delta-cons cid am.cid (val am.big) (pos 0) s sts
              (add_amount-Collected am.cid st am.big fresh added) in
          let (ds, fs) = credit-delta cid rb ams h rest in
          rw (← shape) (d ∙ rw ds refl, f ∙ rw (at_key-zero cid am.cid, fs) (omega int_laws))
  ]

  -- Debiting what is required takes all of it away, and carries the fees.
  pub debit-delta :
      (cid : CurrencyId) (sb : Map CurrencyId (AmountState api)) (required : Required)
      {sts : List (State api)}
      → Entries IsFreshFor sb
      → debit sb required ≡ ok sts
      → (delta cid sts +ℤ sum_at paid cid required ≡ pos 0)
        × (fee_total cid sts ≡ sum_at fees cid required)
  unfolding debit sum_at
  debit-delta cid sb [] {sts} h e =
      let same : [] ≡ sts = cc in rw (← same) (unfold delta fee_total in (omega int_laws, refl))
  debit-delta cid sb ((c, rq) ∷ required) {sts = sts'} h e = elim (Option-cases (lookup c sb)) [
    | inl absent ↦ absurd (let f = rw (absent, debit) at e in cc)
    | inr (st, found) ↦ with_ok (sub_amount st rq.0) _ (rw (found, debit) at e) λ s taken r₁.
        with_ok (add_fee s rq.1) _ r₁ λ t charged r₂.
          with_ok (debit sb required) _ r₂ λ sts rest same.
            let shape : amount_state t ∷ sts ≡ sts' = cc in
            let fresh = lookup-Entries IsFreshFor c sb h found in
            let (d, f) = delta-cons cid c (pos 0 -ℤ val rq.0) (val rq.1) t sts (
              add_fee-Collected c (pos 0 -ℤ val rq.0) s rq.1
                (sub_amount-Collected c st rq.0 fresh taken) charged) in
            let (ds, fs) = debit-delta cid sb required h rest in
            rw (← shape) (
              ap (λ x. x +ℤ (at_key cid c (paid rq) +ℤ sum_at paid cid required)) d
                  ∙ +ℤ_swap_middle (at_key cid c (pos 0 -ℤ val rq.0)) (delta cid sts)
                      (at_key cid c (paid rq)) (sum_at paid cid required)
                  ∙ rw (at_key-neg cid c (val rq.0), ds) (omega int_laws),
              f ∙ rw fs refl,
            )
  ]

-- The balance of credits, debits and fees, as the sums of an operation meet.
pub settle :
    (cs ds cf df amounts charges paid_sum fee_sum : ℤ)
    → cs ≡ amounts
    → cf ≡ pos 0
    → ds +ℤ paid_sum ≡ pos 0
    → df ≡ fee_sum
    → paid_sum ≡ amounts +ℤ charges
    → fee_sum ≡ charges
    → (cs +ℤ ds +ℤ (cf +ℤ df) ≡ pos 0) × (cf +ℤ df ≡ charges)
settle cs ds cf df amounts charges paid_sum fee_sum c f d g p q =
    (sums ∙ ap (λ x. ds +ℤ x) (sym p) ∙ d, rw (f, g, q) (omega int_laws))
  where
    sums : cs +ℤ ds +ℤ (cf +ℤ df) ≡ ds +ℤ (amounts +ℤ charges)
    sums = rw (c, f, g, q) (omega int_laws)

-- What stands under the key of an account is no state of a balance.
module _ {m : Mitum} {api : StateApi m} where
  abbrev pub IsPlain : State api → Type 0
  IsPlain (plain_state st) = Unit {0}
  IsPlain (amount_state st) = ⊥

  abbrev pub ReadsPlainAccounts : (Bytes → Result (State api × Bool)) → Type 0
  ReadsPlainAccounts get_state =
      (a : Address) (st : State api) (b : Bool)
      → get_state (state_key_account a) ≡ ok (st, b)
      → IsPlain st

  pub set_value-delta :
      (cid : CurrencyId) (st : State api) (v : Value m) {t : State api} (sts : List (State api))
      → IsPlain st
      → set_value st v ≡ ok t
      → (delta cid (t ∷ sts) ≡ delta cid sts) × (fee_total cid (t ∷ sts) ≡ fee_total cid sts)
  unfolding set_value delta fee_total
  set_value-delta cid (plain_state st) v {t} sts p e =
      with_ok (api.set_value st v) _ e
        λ s set same. let shape : plain_state s ≡ t = cc in rw (← shape) (refl, refl)
  set_value-delta cid (amount_state st) v sts p e = absurd p
