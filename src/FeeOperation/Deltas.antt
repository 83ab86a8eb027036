-- ===== src/FeeOperation/Deltas.antt =====
-- currency/fee.go and currency/operation_processor.go (`Close`): the collected fees are paid out.
use mitum_currency.Prelude.{
  Bool, Option, none, some, List, [], ◌∷◌, Result, ok, ◌≡◌, refl, ap, ◌∙◌, with_ok, All,
}
use mitum_currency.Prelude.Int.{pos, ◌+ℤ◌}
use mitum_currency.Prelude.Bytes.{Bytes, bytes_eq_instance}
use mitum_currency.Prelude.Map.{Map}
use mitum_currency.Prelude.Sums.{at_key, sum_at}
use mitum_currency.Mitum.{Mitum}
use mitum_currency.CurrencyId.{CurrencyId}
use mitum_currency.StateKey.{Address, state_key_account, state_key_balance}
use mitum_currency.Big.{Big}
use mitum_currency.Big.Laws.{val}
use mitum_currency.Feeer
use mitum_currency.Feeer.{Feeer}
use mitum_currency.Design.{Amount}
use mitum_currency.State.{
  StateApi, State, amount_state, new_amount_state, check_exists_state, add_amount,
}
use mitum_currency.Pool
use mitum_currency.Pool.{CurrencyPool}
use mitum_currency.Fees.Required.{amounts_total}
use mitum_currency.Emission.Deltas.{
  delta, delta-cons, ReadsFresh, new_amount_state-IsFreshFor, add_amount-Collected,
}
use mitum_currency.FeeOperation.{fee_amounts, pay, process}

pub fee_amounts-total :
    (cid : CurrencyId) (fees : Map CurrencyId Big)
    → amounts_total cid (fee_amounts fees) ≡ sum_at val cid fees
unfolding fee_amounts amounts_total sum_at
fee_amounts-total cid [] = refl
fee_amounts-total cid ((c, b) ∷ fees) =
    ap (λ x. at_key cid c (val b) +ℤ x) (fee_amounts-total cid fees)

module _ {m : Mitum} {api : StateApi m} where
  -- The states among what `Process` hands to the pool.
  unfoldable pub paid_states : List (Option (State api)) → List (State api)
  paid_states [] = []
  paid_states (none ∷ sts) = paid_states sts
  paid_states (some st ∷ sts) = st ∷ paid_states sts

  -- The fees of a currency have a receiver.
  abbrev pub HasReceiver : CurrencyPool api → CurrencyId → Type 0
  HasReceiver cp cid =
      (f : Feeer) × (a : Address) × (Pool.feeer cp cid ≡ some f) × (Feeer.receiver f ≡ some a)

module _ {m : Mitum} {api : StateApi m} (get_state : Bytes → Result (State api × Bool))
    (fresh : ReadsFresh get_state) where
  pay-delta :
      (cid : CurrencyId) (a : Address) (am : Amount) (sts : List (Option (State api)))
      {s : Option (State api)}
      → pay get_state (some a) am ≡ ok s
      → delta cid (paid_states (s ∷ sts))
        ≡ at_key cid am.cid (val am.big) +ℤ delta cid (paid_states sts)
  unfolding pay paid_states
  pay-delta cid a am sts {s} e =
      with_ok (check_exists_state (state_key_account a) get_state) _ e λ u there r₁.
        with_ok (get_state (state_key_balance a am.cid)) _ r₁ λ r got r₂.
          with_ok (add_amount (new_amount_state r.0 am.cid) am.big) _ r₂ λ t added same.
            let shape : some (amount_state t) ≡ s = cc in
            rw (← shape)
              (delta-cons cid am.cid (val am.big) (pos 0) t (paid_states sts) (
                add_amount-Collected am.cid (new_amount_state r.0 am.cid) am.big
                  (new_amount_state-IsFreshFor get_state a am.cid r.0 r.1 fresh got) added)).0

  pub process-delta :
      (cid : CurrencyId) (cp : CurrencyPool api) (ams : List Amount)
      {sts : List (Option (State api))}
      → All (λ am. HasReceiver cp am.cid) ams
      → process cp get_state ams ≡ ok sts
      → delta cid (paid_states sts) ≡ amounts_total cid ams
  unfolding process amounts_total
  process-delta cid cp [] {sts} h e =
      let none_left : [] ≡ sts = cc in rw (← none_left) (unfold delta paid_states in refl)
  process-delta cid cp (am ∷ ams) {sts} ((f, a, found, receives), h) e =
      with_ok (pay get_state (some a) am) _ (rw (found, receives) at e) λ s paid r₁.
        with_ok (process cp get_state ams) _ r₁ λ rest others same.
          let shape : s ∷ rest ≡ sts = cc in
          rw (← shape) (
            pay-delta cid a am rest paid
            ∙ ap (λ x. at_key cid am.cid (val am.big) +ℤ x) (process-delta cid cp ams h others))
