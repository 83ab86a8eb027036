-- ===== src/Operations/Conservation.antt =====
-- currency/operation_processor.go: over a block, balances and collected fees together change by
-- what registrations mint.
use mitum_currency.Prelude.{
  Bool, true, Option, List, [], ◌∷◌, ◌++◌, Result, ok, ◌≡◌, sym, ap, ◌∙◌, with_ok, subst, guard,
  reason, external, All,
}
use mitum_currency.Prelude.Int.{ℤ, pos, ◌+ℤ◌, int_laws}
use mitum_currency.Prelude.Bytes.{Bytes, bytes_eq_instance}
use mitum_currency.Prelude.Sums.{at_key}
use mitum_currency.Mitum.{Mitum}
use mitum_currency.CurrencyId.{CurrencyId}
use mitum_currency.Big.Laws.{val}
use mitum_currency.Feeer
use mitum_currency.Feeer.{Feeer}
use mitum_currency.State.{StateApi, State}
use mitum_currency.Pool.{CurrencyPool}
use mitum_currency.Emission.Deltas.{delta, fee_total, delta-append, ReadsFresh, ReadsPlainAccounts}
use mitum_currency.Emission.Nonneg.{IsNonneg}
use mitum_currency.Transfers
use mitum_currency.Transfers.Deltas.{transfers-delta}
use mitum_currency.Transfers.Nonneg as TransfersNonneg
use mitum_currency.CreateAccounts
use mitum_currency.CreateAccounts.Deltas.{create_accounts-delta}
use mitum_currency.CreateAccounts.Nonneg as AccountsNonneg
use mitum_currency.KeyUpdater
use mitum_currency.KeyUpdater.{find_feeer}
use mitum_currency.KeyUpdater.Deltas as KeyDeltas
use mitum_currency.Currencies
use mitum_currency.Currencies.Minting.{ReadsPlainDesigns, register-delta, policy-delta}
use mitum_currency.Operations.{
  OperationProcessor, Operation, Prepared, Setting, prepare, process, process_all, set_state,
  is_known, transfers, create_accounts, key_updater, currency_register, currency_policy_updater,
  other_operation, prepared_transfers, prepared_accounts, prepared_keys, prepared_register,
  prepared_policy,
}
use mitum_currency.Operations.Collecting.{collected, set_state-collects}

-- What an operation mints of a currency.
unfoldable pub minted : {m : Mitum} → CurrencyId → Operation m → ℤ
minted cid (currency_register t) =
    at_key cid t.fact.currency.amount.cid (val t.fact.currency.amount.big)
minted cid (transfers t) = pos 0
minted cid (create_accounts t) = pos 0
minted cid (key_updater t) = pos 0
minted cid (currency_policy_updater t) = pos 0
minted cid other_operation = pos 0

unfoldable pub minted_total : {m : Mitum} → CurrencyId → List (Operation m) → ℤ
minted_total cid [] = pos 0
minted_total cid (op ∷ ops) = minted cid op +ℤ minted_total cid ops

fees_settled : (d f c c' : ℤ) → d +ℤ f ≡ pos 0 → c' ≡ c +ℤ f → d +ℤ c' ≡ c +ℤ pos 0
fees_settled d f c c' h k = rw k (swap d f c ∙ ap (λ x. c +ℤ x) h)
  where
    swap : (d f c : ℤ) → d +ℤ (c +ℤ f) ≡ c +ℤ (d +ℤ f)
    swap d f c = omega int_laws

add_up :
    (d ds c c' c'' g gs : ℤ)
    → d +ℤ c' ≡ c +ℤ g
    → ds +ℤ c'' ≡ c' +ℤ gs
    → d +ℤ ds +ℤ c'' ≡ c +ℤ (g +ℤ gs)
add_up d ds c c' c'' g gs h k =
    first d ds c'' ∙ ap (λ x. d +ℤ x) k ∙ second d c' gs ∙ ap (λ x. x +ℤ gs) h ∙ third c g gs
  where
    first : (d ds c'' : ℤ) → d +ℤ ds +ℤ c'' ≡ d +ℤ (ds +ℤ c'')
    first d ds c'' = omega int_laws

    second : (d c' gs : ℤ) → d +ℤ (c' +ℤ gs) ≡ d +ℤ c' +ℤ gs
    second d c' gs = omega int_laws

    third : (c g gs : ℤ) → c +ℤ g +ℤ gs ≡ c +ℤ (g +ℤ gs)
    third c g gs = omega int_laws

module _ {m : Mitum} {api : StateApi m} where
  -- The feeers of the pool are valid, as `CurrencyDesign.IsValid` demands.
  abbrev pub HasValidFeeers : Option (CurrencyPool api) → Type 0
  HasValidFeeers cp =
      (cid : CurrencyId) (f : Feeer) → find_feeer cp cid ≡ ok f → Feeer.is_valid m f ≡ ok tt

  -- Known operations and what `PreProcess` made of them, in the order in which they are processed.
  abbrev pub ArePrepared :
      Setting api
      → (Bytes → Result (State api × Bool))
      → List (Operation m)
      → List (Prepared api)
      → Type 0
  ArePrepared s get_state [] [] = Unit {0}
  ArePrepared s get_state (op ∷ ops) [] = ⊥
  ArePrepared s get_state [] (p ∷ ps) = ⊥
  ArePrepared s get_state (op ∷ ops) (p ∷ ps) =
      (is_known op ≡ true) × (prepare s get_state op ≡ ok p) × ArePrepared s get_state ops ps

  Settles : CurrencyId → OperationProcessor → OperationProcessor → List (State api) → ℤ → Type 0
  Settles cid opr opr' sts g = delta cid sts +ℤ collected cid opr'.fee ≡ collected cid opr.fee +ℤ g

  set_state-Settles :
      (cid : CurrencyId) (opr : OperationProcessor) (sts : List (State api))
      {opr' : OperationProcessor} {handed : List (State api)}
      → delta cid sts +ℤ fee_total cid sts ≡ pos 0
      → All IsNonneg sts
      → set_state opr sts ≡ ok (opr', handed)
      → Settles cid opr opr' handed (pos 0)
  unfolding Settles
  set_state-Settles cid opr sts {opr'} {handed} h n e =
      let (c, same) = set_state-collects cid opr sts n e in
      rw same (
        fees_settled (delta cid sts) (fee_total cid sts) (collected cid opr.fee)
          (collected cid opr'.fee) h c)

module _ {m : Mitum} {api : StateApi m} (s : Setting api)
    (get_state : Bytes → Result (State api × Bool)) (fresh : ReadsFresh get_state)
    (plain_accounts : ReadsPlainAccounts get_state) (plain_designs : ReadsPlainDesigns get_state)
    (valid_feeers : HasValidFeeers s.cp) where
  process-Settles :
      (cid : CurrencyId) (opr : OperationProcessor) (op : Operation m) {p : Prepared api}
      {opr' : OperationProcessor} {sts : List (State api)}
      → is_known op ≡ true
      → prepare s get_state op ≡ ok p
      → process opr p ≡ ok (opr', sts)
      → Settles cid opr opr' sts (minted cid op)
  unfolding prepare process minted is_known Settles
  process-Settles cid opr (transfers t) {p} {opr'} {sts} known e f =
      with_ok (guard (s.is_set (transfers t)) (reason external)) _ e λ u set r₁.
        with_ok (Transfers.pre_process s.cp get_state t) _ r₁ λ q ready same.
          let shape : prepared_transfers q ≡ p = cc in
          with_ok (Transfers.process q) _
            (subst (λ x. process opr x ≡ ok (opr', sts)) (sym shape) f)
            λ ss done collects.
              set_state-Settles cid opr ss (transfers-delta get_state fresh cid s.cp t ready done).0
                (TransfersNonneg.process-IsNonneg get_state fresh s.cp t ready done) collects
  process-Settles cid opr (create_accounts t) {p} {opr'} {sts} known e f =
      with_ok (guard (s.is_set (create_accounts t)) (reason external)) _ e λ u set r₁.
        with_ok (CreateAccounts.pre_process s.cp get_state t) _ r₁ λ q ready same.
          let shape : prepared_accounts q ≡ p = cc in
          with_ok (CreateAccounts.process q) _
            (subst (λ x. process opr x ≡ ok (opr', sts)) (sym shape) f)
            λ ss done collects.
              set_state-Settles cid opr ss
                (create_accounts-delta get_state fresh plain_accounts cid s.cp t ready done).0
                (AccountsNonneg.process-IsNonneg get_state fresh plain_accounts s.cp t ready done)
                collects
  process-Settles cid opr (key_updater t) {p} {opr'} {sts} known e f =
      with_ok (guard (s.is_set (key_updater t)) (reason external)) _ e λ u set r₁.
        with_ok (KeyUpdater.pre_process s.cp get_state t) _ r₁ λ q ready same.
          let shape : prepared_keys q ≡ p = cc in
          with_ok (KeyUpdater.process q) _
            (subst (λ x. process opr x ≡ ok (opr', sts)) (sym shape) f)
            λ ss done collects.
              let (sa, sb, (feeer, found, charged)) =
                KeyDeltas.pre_process-parts get_state fresh plain_accounts s.cp t ready in
              let (d, g, n) = KeyDeltas.process-delta cid q sa sb done in
              set_state-Settles cid opr ss d
                (n
                  (KeyDeltas.fee-nonneg m feeer (valid_feeers t.fact.currency feeer found) charged))
                collects
  process-Settles cid opr (currency_register t) {p} {opr'} {sts} known e f =
      with_ok (guard (s.is_set (currency_register t)) (reason external)) _ e λ u set r₁.
        with_ok (Currencies.register_pre_process s.cp s.pubs s.threshold get_state t) _ r₁
          λ q ready same.
            let shape : prepared_register q ≡ p = cc in
            with_ok (Currencies.register_process q) _
              (subst (λ x. process opr x ≡ ok (opr', sts)) (sym shape) f)
              λ ss done same'.
                let kept : opr ≡ opr' = cc in
                let states : ss ≡ sts = cc in
                let (d, g) =
                  register-delta get_state fresh plain_designs cid s.cp s.pubs s.threshold t ready
                    done in
                rw (← kept, ← states, d) (omega int_laws)
  process-Settles cid opr (currency_policy_updater t) {p} {opr'} {sts} known e f =
      with_ok (guard (s.is_set (currency_policy_updater t)) (reason external)) _ e λ u set r₁.
        with_ok (Currencies.policy_pre_process s.cp s.pubs s.threshold get_state t) _ r₁
          λ q ready same.
            let shape : prepared_policy q ≡ p = cc in
            with_ok (Currencies.policy_process q) _
              (subst (λ x. process opr x ≡ ok (opr', sts)) (sym shape) f)
              λ ss done same'.
                let kept : opr ≡ opr' = cc in
                let states : ss ≡ sts = cc in
                rw
                  (
                    ← kept,
                    ← states,
                    policy-delta get_state plain_designs cid s.cp s.pubs s.threshold t ready done,
                  )
                  (omega int_laws)
  process-Settles cid opr other_operation known e f = absurd (cc)

  -- The same over the operations of a block, one after another.
  pub process_all-conserves :
      (cid : CurrencyId) (opr : OperationProcessor) (ops : List (Operation m))
      (ps : List (Prepared api)) {opr' : OperationProcessor} {sts : List (State api)}
      → ArePrepared s get_state ops ps
      → process_all opr ps ≡ ok (opr', sts)
      → delta cid sts +ℤ collected cid opr'.fee ≡ collected cid opr.fee +ℤ minted_total cid ops
  unfolding process_all minted_total Settles
  process_all-conserves cid opr [] [] {opr'} {sts} h e =
      let kept : opr ≡ opr' = cc in
      let none_left : [] ≡ sts = cc in rw (← kept, ← none_left) (unfold delta in omega int_laws)
  process_all-conserves cid opr [] (p ∷ ps) h e = absurd h
  process_all-conserves cid opr (op ∷ ops) [] h e = absurd h
  process_all-conserves cid opr (op ∷ ops) (p ∷ ps) {opr'} {sts} (known, prepared, rest) e =
      with_ok (process opr p) _ e λ r first r₁. with_ok (process_all r.0 ps) _ r₁ λ others run same.
        let kept : others.0 ≡ opr' = cc in
        let states : r.1 ++ others.1 ≡ sts = cc in
        rw (← kept, ← states, delta-append cid r.1 others.1)
          (add_up (delta cid r.1) (delta cid others.1) (collected cid opr.fee)
            (collected cid r.0.fee) (collected cid others.0.fee) (minted cid op)
            (minted_total cid ops) (process-Settles cid opr op known prepared first)
            (process_all-conserves cid r.0 ops ps rest run))
