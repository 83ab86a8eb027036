-- ===== src/Operations/Duplication.antt =====
-- currency/operation_processor.go: what `PreProcess` marks of an operation that it lets through.
use mitum_currency.Prelude.{
  false, List, [], Result, ok, err, ◌≡◌, refl, ap, inl, inr, subst, Bool-cases, sym,
}
use mitum_currency.Prelude.Bytes.{Bytes, bytes_eq_instance}
use mitum_currency.Mitum.{Mitum}
use mitum_currency.StateKey.{Address}
use mitum_currency.State.{StateApi}
use mitum_currency.CreateAccounts.{targets}
use mitum_currency.Operations.{
  OperationProcessor, Operation, Prepared, address_strings, check_targets, duplication_sender,
  duplication_currency, check_duplication, mark_prepared, mark_if_prepared, wrap_duplication,
  is_known, transfers, create_accounts, key_updater, currency_register, currency_policy_updater,
  other_operation,
}
use mitum_currency.Operations.Marks.{
  Passed, Stays, Stays-refl, check_marks-Stays, check_marks-Passed,
}

strings_of : Mitum → Result (List Address) → List Bytes
strings_of m (ok as') = address_strings m as'
strings_of m (err e) = []

open_none : (opr : OperationProcessor) → Passed opr opr [] []
open_none opr = record {
  id_unknown = λ n. absurd (n refl);
  id_known = λ n. absurd (n refl);
  news_unknown = tt;
  news_known = tt;
}

check_targets-Stays :
    (m : Mitum) (opr : OperationProcessor) (did : Bytes) (r : Result (List Address))
    → Stays opr (check_targets m opr did r).1
unfolding check_targets
check_targets-Stays m opr did (ok as') =
    check_marks-Stays opr did duplication_sender (address_strings m as')
check_targets-Stays m opr did (err e) = Stays-refl opr

check_targets-Passed :
    (m : Mitum) (opr : OperationProcessor) (did : Bytes) (r : Result (List Address))
    {opr' : OperationProcessor}
    → check_targets m opr did r ≡ (ok tt, opr')
    → Passed opr opr' did (strings_of m r)
unfolding check_targets strings_of
check_targets-Passed m opr did (ok as') e =
    check_marks-Passed opr did duplication_sender (address_strings m as') e
check_targets-Passed m opr did (err f) e = absurd (cc)

module _ {m : Mitum} where
  -- The text of the sender or of the currency by which an operation is known.
  unfoldable pub did : Operation m → Bytes
  did (transfers t) = m.hinted_address t.fact.sender
  did (create_accounts t) = m.hinted_address t.fact.sender
  did (key_updater t) = m.hinted_address t.fact.target
  did (currency_register t) = t.fact.currency.amount.cid
  did (currency_policy_updater t) = t.fact.cid
  did other_operation = []

  -- The texts of the accounts that it opens.
  unfoldable pub new_addresses : Operation m → List Bytes
  unfolding strings_of
  new_addresses (create_accounts t) = strings_of m (targets t.fact.items)
  new_addresses (transfers t) = []
  new_addresses (key_updater t) = []
  new_addresses (currency_register t) = []
  new_addresses (currency_policy_updater t) = []
  new_addresses other_operation = []

  check_duplication-Stays :
      (opr : OperationProcessor) (op : Operation m) → Stays opr (check_duplication opr op).1
  unfolding check_duplication
  check_duplication-Stays opr (transfers t) = check_marks-Stays opr _ duplication_sender []
  check_duplication-Stays opr (create_accounts t) =
      check_targets-Stays m opr (m.hinted_address t.fact.sender) (targets t.fact.items)
  check_duplication-Stays opr (key_updater t) = check_marks-Stays opr _ duplication_sender []
  check_duplication-Stays opr (currency_register t) =
      check_marks-Stays opr _ duplication_currency []
  check_duplication-Stays opr (currency_policy_updater t) =
      check_marks-Stays opr _ duplication_currency []
  check_duplication-Stays opr other_operation = Stays-refl opr

  check_duplication-Passed :
      (opr : OperationProcessor) (op : Operation m) {opr' : OperationProcessor}
      → check_duplication opr op ≡ (ok tt, opr')
      → Passed opr opr' (did op) (new_addresses op)
  unfolding check_duplication did new_addresses
  check_duplication-Passed opr (transfers t) e = check_marks-Passed opr _ _ [] e
  check_duplication-Passed opr (create_accounts t) e =
      check_targets-Passed m opr (m.hinted_address t.fact.sender) (targets t.fact.items) e
  check_duplication-Passed opr (key_updater t) e = check_marks-Passed opr _ _ [] e
  check_duplication-Passed opr (currency_register t) e = check_marks-Passed opr _ _ [] e
  check_duplication-Passed opr (currency_policy_updater t) e = check_marks-Passed opr _ _ [] e
  check_duplication-Passed opr other_operation {opr'} e =
      let same : opr ≡ opr' = cc in subst (λ o. Passed opr o [] []) same (open_none opr)

  unknown-Passed :
      (opr : OperationProcessor) (op : Operation m)
      → is_known op ≡ false
      → Passed opr opr (did op) (new_addresses op)
  unfolding is_known did new_addresses
  unknown-Passed opr (transfers t) e = absurd (cc)
  unknown-Passed opr (create_accounts t) e = absurd (cc)
  unknown-Passed opr (key_updater t) e = absurd (cc)
  unknown-Passed opr (currency_register t) e = absurd (cc)
  unknown-Passed opr (currency_policy_updater t) e = absurd (cc)
  unknown-Passed opr other_operation e = open_none opr

module _ {m : Mitum} {api : StateApi m} where
  wrap_duplication-passed :
      (p : Prepared api) (r : Result (Unit {0}) × OperationProcessor) {q : Prepared api}
      {opr' : OperationProcessor}
      → wrap_duplication p r ≡ (ok q, opr')
      → r ≡ (ok tt, opr')
  unfolding wrap_duplication
  wrap_duplication-passed p (ok u, opr) {opr'} e =
      let same : opr ≡ opr' = cc in ap (λ o. (ok tt, o)) same
  wrap_duplication-passed p (err f, opr) e = absurd (cc)

  wrap_duplication-snd :
      (p : Prepared api) (r : Result (Unit {0}) × OperationProcessor)
      → (wrap_duplication p r).1 ≡ r.1
  unfolding wrap_duplication
  wrap_duplication-snd p (ok u, opr) = refl
  wrap_duplication-snd p (err f, opr) = refl

  pub mark_if_prepared-Passed :
      (opr : OperationProcessor) (op : Operation m) (r : Result (Prepared api)) {q : Prepared api}
      {opr' : OperationProcessor}
      → mark_if_prepared opr op r ≡ (ok q, opr')
      → Passed opr opr' (did op) (new_addresses op)
  unfolding mark_if_prepared mark_prepared
  mark_if_prepared-Passed opr op (err f) e = absurd (cc)
  mark_if_prepared-Passed opr op (ok p) {opr'} e = elim (Bool-cases (is_known op)) [
    | inl known ↦
        check_duplication-Passed opr op
          (wrap_duplication-passed p (check_duplication opr op) (rw (known, mark_prepared) at e))
    | inr other ↦
        let same : opr ≡ opr' = let f = rw (other, mark_prepared) at e in cc in
        subst (λ o. Passed opr o (did op) (new_addresses op)) same (unknown-Passed opr op other)
  ]

  pub mark_if_prepared-Stays :
      (opr : OperationProcessor) (op : Operation m) (r : Result (Prepared api))
      → Stays opr (mark_if_prepared opr op r).1
  unfolding mark_if_prepared mark_prepared
  mark_if_prepared-Stays opr op (err f) = Stays-refl opr
  mark_if_prepared-Stays opr op (ok p) = elim (Bool-cases (is_known op)) [
    | inl known ↦ rw known (
        subst (Stays opr) (sym (wrap_duplication-snd p (check_duplication opr op)))
          (check_duplication-Stays opr op))
    | inr other ↦ rw other (Stays-refl opr)
  ]
