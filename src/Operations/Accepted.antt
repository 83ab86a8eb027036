-- ===== src/Operations/Accepted.antt =====
-- currency/operation_processor.go: `PreProcess` lets no two operations of a block through that
-- share a sender, a currency or a new account.
use mitum_currency.Prelude.{
  Bool, true, false, List, [], ◌∷◌, Result, ok, err, ◌≡◌, ◌≢◌, refl, inl, inr, Bool-cases, All,
  All-map,
}
use mitum_currency.Prelude.Bytes.{Bytes, bytes_eq_instance}
use mitum_currency.Prelude.Map.{Map, contains}
use mitum_currency.Mitum.{Mitum}
use mitum_currency.State.{StateApi, State}
use mitum_currency.Operations.{
  OperationProcessor, Operation, Prepared, Setting, prepare, pre_process,
}
use mitum_currency.Operations.Marks.{Passed, Stays, Unknown, Grows}
use mitum_currency.Operations.Duplication.{
  did, new_addresses, mark_if_prepared-Passed, mark_if_prepared-Stays,
}

-- What is unknown to the later map was unknown to the earlier one.
unknown_before :
    {V : Type 0} (m m' : Map Bytes V)
    → Grows m m'
    → (k : Bytes) → contains k m' ≡ false
    → contains k m ≡ false
unfolding Grows
unknown_before m m' g k h = elim (Bool-cases (contains k m)) [
  | inl found ↦ absurd (let f = g k found in cc)
  | inr free ↦ free
]

known_apart :
    {V : Type 0} (m : Map Bytes V) (a b : Bytes)
    → contains a m ≡ true
    → contains b m ≡ false
    → a ≢ b
known_apart m a b h k e = let f : contains b m ≡ true = rw e at h in cc

module _ {m : Mitum} where
  -- Operations that share neither what they are known by nor an account that they open.
  unfoldable pub AreApart : Operation m → Operation m → Type 0
  AreApart op op' =
      (did op ≢ [] → did op' ≢ [] → did op ≢ did op')
      × All (λ a. All (λ b. a ≢ b) (new_addresses op')) (new_addresses op)

  unfoldable pub ArePairwiseApart : List (Operation m) → Type 0
  ArePairwiseApart [] = Unit
  ArePairwiseApart (op ∷ ops) = All (AreApart op) ops × ArePairwiseApart ops

  -- An operation of which nothing is marked yet.
  unfoldable IsUnmarked : OperationProcessor → Operation m → Type 0
  IsUnmarked opr op =
      (did op ≢ [] → contains (did op) opr.duplicated ≡ false)
      × Unknown opr.duplicated_new_address (new_addresses op)

  Stays-IsUnmarked :
      {opr opr' : OperationProcessor} (op : Operation m)
      → Stays opr opr'
      → IsUnmarked opr' op
      → IsUnmarked opr op
  unfolding IsUnmarked
  Stays-IsUnmarked {opr} {opr'} op s (d, n) = (
    λ ne. unknown_before opr.duplicated opr'.duplicated s.ids_stay (did op) (d ne),
    All-map (unknown_before opr.duplicated_new_address opr'.duplicated_new_address s.news_stay)
        (new_addresses op) n,
  )

  Passed-AreApart :
      {opr opr' : OperationProcessor} (op op' : Operation m)
      → Passed opr opr' (did op) (new_addresses op)
      → IsUnmarked opr' op'
      → AreApart op op'
  unfolding IsUnmarked AreApart
  Passed-AreApart {opr'} op op' p (d, n) = (
    λ ne ne'. known_apart opr'.duplicated (did op) (did op') (p.id_known ne) (d ne'),
    All-map
        (λ a known.
          All-map (λ b. known_apart opr'.duplicated_new_address a b known) (new_addresses op') n)
        (new_addresses op) p.news_known,
  )

module _ {m : Mitum} {api : StateApi m} where
  unfoldable keep : Result (Prepared api) → Operation m → List (Operation m) → List (Operation m)
  keep (ok p) op rest = op ∷ rest
  keep (err e) op rest = rest

  -- `PreProcess` of the operations of a block, one after another: those that it lets through.
  unfoldable pub accepted :
      Setting api
      → (Bytes → Result (State api × Bool))
      → OperationProcessor
      → List (Operation m)
      → List (Operation m)
  unfolding keep
  accepted s get_state opr [] = []
  accepted s get_state opr (op ∷ ops) =
      let r = pre_process s get_state opr op in keep r.0 op (accepted s get_state r.1 ops)

module _ {m : Mitum} {api : StateApi m} where
  -- What a passed operation leaves marked, over the result of its `PreProcess`.
  abbrev MarksWhenPassed :
      OperationProcessor → Operation m → Result (Prepared api) × OperationProcessor → Type 0
  MarksWhenPassed opr op r =
      (p : Prepared api) (opr' : OperationProcessor)
      → r ≡ (ok p, opr')
      → Passed opr opr' (did op) (new_addresses op)

  keep-IsUnmarked :
      (opr : OperationProcessor) (op : Operation m) (r : Result (Prepared api) × OperationProcessor)
      (rest : List (Operation m))
      → Stays opr r.1
      → MarksWhenPassed opr op r
      → All (IsUnmarked r.1) rest
      → All (IsUnmarked opr) (keep r.0 op rest)
  unfolding keep IsUnmarked
  keep-IsUnmarked opr op (ok p, opr') rest stays passed h =
      let q = passed p opr' refl in
      ((q.id_unknown, q.news_unknown), All-map (λ o. Stays-IsUnmarked o stays) rest h)
  keep-IsUnmarked opr op (err e, opr') rest stays passed h =
      All-map (λ o. Stays-IsUnmarked o stays) rest h

  keep-ArePairwiseApart :
      (opr : OperationProcessor) (op : Operation m) (r : Result (Prepared api) × OperationProcessor)
      (rest : List (Operation m))
      → MarksWhenPassed opr op r
      → All (IsUnmarked r.1) rest
      → ArePairwiseApart rest
      → ArePairwiseApart (keep r.0 op rest)
  unfolding keep ArePairwiseApart
  keep-ArePairwiseApart opr op (ok p, opr') rest passed h apart =
      (All-map (λ o. Passed-AreApart op o (passed p opr' refl)) rest h, apart)
  keep-ArePairwiseApart opr op (err e, opr') rest passed h apart = apart

module _ {m : Mitum} {api : StateApi m} (s : Setting api)
    (get_state : Bytes → Result (State api × Bool)) where
  pre_process-MarksWhenPassed :
      (opr : OperationProcessor) (op : Operation m)
      → MarksWhenPassed opr op (pre_process s get_state opr op)
  unfolding pre_process
  pre_process-MarksWhenPassed opr op p opr' e =
      mark_if_prepared-Passed opr op (prepare s get_state op) e

  accepted-IsUnmarked :
      (opr : OperationProcessor) (ops : List (Operation m))
      → All (IsUnmarked opr) (accepted s get_state opr ops)
  unfolding accepted pre_process
  accepted-IsUnmarked opr [] = tt
  accepted-IsUnmarked opr (op ∷ ops) =
      let r = pre_process s get_state opr op in
      keep-IsUnmarked opr op r (accepted s get_state r.1 ops)
        (mark_if_prepared-Stays opr op (prepare s get_state op))
        (pre_process-MarksWhenPassed opr op) (accepted-IsUnmarked r.1 ops)

  -- Of the operations that `PreProcess` lets through when the operations of a block come to it one
  -- after another, no two have the same sender, target or currency text, unless it is empty, and
  -- no two open an account of the same address text.
  pub accepted-ArePairwiseApart :
      (opr : OperationProcessor) (ops : List (Operation m))
      → ArePairwiseApart (accepted s get_state opr ops)
  unfolding accepted ArePairwiseApart pre_process
  accepted-ArePairwiseApart opr [] = tt
  accepted-ArePairwiseApart opr (op ∷ ops) =
      let r = pre_process s get_state opr op in
      keep-ArePairwiseApart opr op r (accepted s get_state r.1 ops)
        (pre_process-MarksWhenPassed opr op) (accepted-IsUnmarked r.1 ops)
        (accepted-ArePairwiseApart r.1 ops)
