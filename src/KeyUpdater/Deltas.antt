-- ===== src/KeyUpdater/Deltas.antt =====
-- currency/keyupdater_process.go: what new keys cost.
use mitum_currency.Prelude.{
  Bool, not, Option, List, [], ◌∷◌, Result, ok, ◌≡◌, sym, ap, ◌∙◌, arith, with_ok, subst, as_reason,
  as_reason-eq-ok, guard, guard-eq-ok, reason, same_keys, insufficient_balance, All, inl, inr,
  Bool-cases, not_exist, if◌then◌else◌, plain, invalid, ◌||◌,
}
use mitum_currency.Prelude.Int.{ℤ, pos, ◌+ℤ◌, ◌-ℤ◌, ◌≤ℤ◌, int_laws}
use mitum_currency.Prelude.Bytes.{Bytes, bytes_eq_instance}
use mitum_currency.Prelude.Sums.{at_key}
use mitum_currency.Mitum.{Mitum}
use mitum_currency.CurrencyId.{CurrencyId}
use mitum_currency.StateKey.{state_key_account, state_key_balance}
use mitum_currency.Keys.{Keys, keys_equal, set_keys, address_is_valid}
use mitum_currency.Big.{Big, zero_big, compare_big, is_lt, over_nil, is_zero}
use mitum_currency.Big.Laws.{val, over_nil-val}
use mitum_currency.Big.Float.{is_zero_float, under_zero_float, over_one_float}
use mitum_currency.Feeer
use mitum_currency.Feeer.{Feeer, nil_feeer, fixed_feeer, ratio_feeer}
use mitum_currency.State.{
  StateApi, State, amount_state, new_amount_state, exists_state, state_keys_value,
  state_balance_value, set_state_keys_value, sub_amount, add_fee, account_value, Value,
  load_state_account_value, account_or_new, set_value,
}
use mitum_currency.Pool.{CurrencyPool}
use mitum_currency.Fees.{check_fact_signs_by_state}
use mitum_currency.Emission.Deltas.{
  delta, fee_total, delta-cons, at_key-neg, IsFreshFor, ReadsFresh, ReadsPlainAccounts, IsPlain,
  new_amount_state-IsFreshFor, sub_amount-Collected, add_fee-Collected, set_value-delta,
}
use mitum_currency.Emission.Nonneg.{IsNonneg}
use mitum_currency.CreateAccounts.Nonneg.{set_value-IsNonneg}
use mitum_currency.KeyUpdater.{KeyUpdater, KeyUpdaterProcessor, find_feeer, pre_process, process}

shift : (a b : ℤ) → a +ℤ b ≡ pos 0 → a +ℤ pos 0 +ℤ (b +ℤ pos 0) ≡ pos 0
shift a b h = sym (same a b) ∙ h
  where
    same : (a b : ℤ) → a +ℤ b ≡ a +ℤ pos 0 +ℤ (b +ℤ pos 0)
    same a b = omega int_laws

module _ {m : Mitum} {api : StateApi m} (get_state : Bytes → Result (State api × Bool)) where
  exists_state-got :
      (k : Bytes) {st : State api}
      → exists_state k get_state ≡ ok st
      → (b : Bool) × (get_state k ≡ ok (st, b))
  unfolding exists_state
  exists_state-got k {st} e = with_ok (get_state k) _ e λ r got rest.
      with_ok (guard r.1 (reason not_exist)) _ rest
        λ u found same. let here : r.0 ≡ st = cc in (r.1, got ∙ ap (λ s. ok (s, r.1)) here)

  module _ (fresh : ReadsFresh get_state) (plain_accounts : ReadsPlainAccounts get_state) where
    -- What the processor keeps: the account, its fresh balance, and the fee.
    pub pre_process-parts :
        (cp : Option (CurrencyPool api)) (op : KeyUpdater m) {opp : KeyUpdaterProcessor api}
        → pre_process cp get_state op ≡ ok opp
        → IsPlain opp.sa
          × IsFreshFor op.fact.currency opp.sb
          × ((feeer : Feeer) × (find_feeer cp op.fact.currency ≡ ok feeer)
              × (Feeer.fee feeer zero_big ≡ ok opp.fee))
    unfolding pre_process
    pre_process-parts cp op {opp} e =
        with_ok (exists_state (state_key_account op.fact.target) get_state) _ e λ sa known r₁.
          with_ok (as_reason (state_keys_value sa)) _ r₁ λ ks keys r₂.
            with_ok (guard (not (keys_equal ks op.fact.keys)) (reason same_keys)) _ r₂
              λ u differ r₃.
                with_ok (exists_state (state_key_balance op.fact.target op.fact.currency) get_state)
                  _ r₃
                  λ st balance r₄.
                    with_ok
                      (as_reason (check_fact_signs_by_state op.fact.target op.signs get_state)) _ r₄
                      λ v signed r₅. with_ok (find_feeer cp op.fact.currency) _ r₅ λ feeer found r₆.
                        with_ok (as_reason (Feeer.fee feeer zero_big)) _ r₆ λ fee charged r₇.
                          with_ok
                            (as_reason (
                              state_balance_value
                                (amount_state (new_amount_state st op.fact.currency))))
                            _ r₇
                            λ b held r₈. with_ok (compare_big b.big fee) _ r₈ λ o compared r₉.
                              with_ok (guard (not (is_lt o)) (reason insufficient_balance)) _ r₉
                                λ w enough same.
                                  let shape : record {
                                    op = op;
                                    sa = sa;
                                    sb = new_amount_state st op.fact.currency;
                                    fee = fee;
                                  }
                                      ≡ opp =
                                    cc in
                                  let (b₁, got₁) =
                                    exists_state-got (state_key_account op.fact.target) known in
                                  let (b₂, got₂) =
                                    exists_state-got
                                      (state_key_balance op.fact.target op.fact.currency) balance in
                                  rw (← shape) (
                                    plain_accounts op.fact.target sa b₁ got₁,
                                    new_amount_state-IsFreshFor get_state op.fact.target
                                        op.fact.currency st b₂ fresh got₂,
                                    (feeer, found, as_reason-eq-ok _ charged),
                                  )

-- The fee at zero of a valid feeer is not negative.
pub fee-nonneg :
    (m : Mitum) (f : Feeer) {k : Big}
    → Feeer.is_valid m f ≡ ok tt
    → Feeer.fee f zero_big ≡ ok k
    → pos 0 ≤ℤ val k
unfolding Feeer.is_valid Feeer.ratio_is_valid Feeer.fee Feeer.ratio_fee is_zero
fee-nonneg m nil_feeer {k} v e = let s : zero_big ≡ k = cc in rw (← s) (omega arith)
fee-nonneg m (fixed_feeer r amount) {k} v e = with_ok (address_is_valid m r) _ v λ u a r₁.
    let s : (if is_zero amount then zero_big else amount) ≡ k = cc in
    let n = over_nil-val amount (guard-eq-ok _ _ r₁) in
    elim (Bool-cases (is_zero amount)) [
      | inl zero ↦ rw (← s, zero) (omega arith)
      | inr some_fee ↦ rw (← s, some_fee) n
    ]
fee-nonneg m (ratio_feeer fa) {k} v e = elim (Bool-cases (is_zero_float fa.ratio)) [
  | inl zero ↦
      let s : zero_big ≡ k = let f = rw (zero, Feeer.ratio_fee) at e in cc in rw (← s) (omega arith)
  | inr some_ratio ↦
      let s : fa.min ≡ k = let f = rw (some_ratio, Feeer.ratio_fee) at e in cc in
      with_ok (address_is_valid m fa.receiver) _ v λ u a r₁.
        with_ok (guard (not (under_zero_float fa.ratio || over_one_float fa.ratio)) (plain invalid))
          _ r₁
          λ u' b r₂.
            with_ok (guard (over_nil fa.min) (plain invalid)) _ r₂
              λ u'' c r₃. rw (← s) (over_nil-val fa.min (guard-eq-ok _ _ c))
]

module _ {m : Mitum} {api : StateApi m} where
  set_state_keys_value-set :
      (st : State api) (v : Keys m) {t : State api}
      → set_state_keys_value st v ≡ ok t
      → (w : Value m) × (set_value st w ≡ ok t)
  unfolding set_state_keys_value
  set_state_keys_value-set st v e =
      with_ok (account_or_new (load_state_account_value st) v) _ e
        λ ac loaded r₁. with_ok (set_keys ac v) _ r₁ λ uac updated r₂. (account_value uac, r₂)

  -- The states that `Process` emits: the fee leaves the balance, and is carried.
  pub process-delta :
      (cid : CurrencyId) (opp : KeyUpdaterProcessor api) {c : CurrencyId} {sts : List (State api)}
      → IsPlain opp.sa
      → IsFreshFor c opp.sb
      → process opp ≡ ok sts
      → (delta cid sts +ℤ fee_total cid sts ≡ pos 0)
        × (fee_total cid sts ≡ at_key cid c (val opp.fee))
        × (pos 0 ≤ℤ val opp.fee → All IsNonneg sts)
  unfolding process
  process-delta cid opp {c} {sts} p fresh e = with_ok (sub_amount opp.sb opp.fee) _ e λ s taken r₁.
      with_ok (add_fee s opp.fee) _ r₁ λ t charged r₂.
        with_ok (set_state_keys_value opp.sa opp.op.fact.keys) _ r₂ λ st set same.
          let shape : st ∷ amount_state t ∷ [] ≡ sts = cc in
          let (w, put) = set_state_keys_value-set opp.sa opp.op.fact.keys set in
          let collected =
            add_fee-Collected c (pos 0 -ℤ val opp.fee) s opp.fee
              (sub_amount-Collected c opp.sb opp.fee fresh taken) charged in
          let (ds, fs) = set_value-delta cid opp.sa w (amount_state t ∷ []) p put in
          let (d, f) = delta-cons cid c (pos 0 -ℤ val opp.fee) (val opp.fee) t [] collected in
          let (k, z, g) = collected in
          rw (← shape) (
            rw (ds, fs, d, f)
                (unfold delta fee_total in
                  (shift (at_key cid c (pos 0 -ℤ val opp.fee)) (at_key cid c (val opp.fee))
                    (at_key-neg cid c (val opp.fee)))),
            fs ∙ f ∙ (unfold fee_total in omega int_laws),
            λ n. (set_value-IsNonneg opp.sa w p put, (subst (λ x. pos 0 ≤ℤ x) (sym g) n, tt)),
          )

module _ {m : Mitum} {api : StateApi m} (get_state : Bytes → Result (State api × Bool))
    (fresh : ReadsFresh get_state) (plain_accounts : ReadsPlainAccounts get_state) where
  -- If the preparation and the processing of a key update succeed, over a database that hands out
  -- only balances that have collected nothing and none under the key of an account, then in every
  -- currency what the emitted states add to the balances and the fees that they carry sum to zero,
  -- and the fee, all of it in the currency that the fact names, is the one that the feeer of that
  -- currency charges for the amount zero.
  pub key_updater-delta :
      (cid : CurrencyId) (cp : Option (CurrencyPool api)) (op : KeyUpdater m)
      {opp : KeyUpdaterProcessor api} {sts : List (State api)}
      → pre_process cp get_state op ≡ ok opp
      → process opp ≡ ok sts
      → (delta cid sts +ℤ fee_total cid sts ≡ pos 0)
        × (fee_total cid sts ≡ at_key cid op.fact.currency (val opp.fee))
        × ((feeer : Feeer) × (find_feeer cp op.fact.currency ≡ ok feeer)
            × (Feeer.fee feeer zero_big ≡ ok opp.fee))
  key_updater-delta cid cp op {opp} e p =
      let (sa, sb, charged) = pre_process-parts get_state fresh plain_accounts cp op e in
      let (d, f, n) = process-delta cid opp sa sb p in (d, f, charged)
