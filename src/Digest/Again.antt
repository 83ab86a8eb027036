-- ===== src/Digest/Again.antt =====
-- digest/digest.go: digesting a block a second time.
use mitum_currency.Prelude.{
  ℕ, ◌+◌, ◌≡◌, refl, ap, ◌∙◌, subst, Bool, false, Option, none, some, List, [], ◌∷◌, ◌++◌, ok, err,
  with_ok, guard, leb, length, plain, panic, not_found, wrong_value, arith, Bool-cases, if-true,
  if-false, inl, inr, All, All-map,
}
use mathlib.Core.List.{Perm, append-nil}
use mathlib.Core.List.Perm
use mitum_currency.Prelude.Int.{ℤ, pos, ◌+ℤ◌, leb_ℤ, ltb_ℤ}
use mitum_currency.Prelude.Slices.{keep, keep-append, keep-none, keep-keep, keep-perm, Perm-path}
use mitum_currency.Prelude.Bytes.{Bytes, bytes_eq_instance}
use mitum_currency.Prelude.Map.{Map, lookup}
use mitum_currency.Mitum.{Mitum}
use mitum_currency.StateKey.{is_state_account_key, is_state_balance_key, balance_suffix}
use mitum_currency.State.{StateApi, plain_state, load_state_account_value, state_balance_value}
use mitum_currency.Digest.Driver.{DigestApi, Driver}
use mitum_currency.Digest.Database.{AccountDoc, BalanceDoc, OperationDoc, Tables, Database}
use mitum_currency.Digest.Session.{
  Node, Block, Models, new_operation_doc, doc_addresses, operation_docs, account_doc, balance_doc,
  state_docs, prepare, digest_block,
}
use mitum_currency.Digest.Digesting.{below, digest_block-IsDigested}

module _ {m : Mitum} {api : StateApi m} (dig : DigestApi api) where
  new_operation_doc-height :
      (op : dig.Operation) (h : ℤ) (b : Bool) (why : Option dig.Reason) (i : ℕ)
      {doc : OperationDoc dig}
      → new_operation_doc dig op h b why i ≡ ok doc
      → doc.height ≡ h
  unfolding new_operation_doc
  new_operation_doc-height op h b why i e =
      with_ok (doc_addresses dig (dig.addresses op)) _ e λ as' found same. cc

  operation_docs-heights :
      (nodes : Map Bytes (Node dig)) (h : ℤ) (i : ℕ) (ops : List dig.Operation)
      {docs : List (OperationDoc dig)}
      → operation_docs dig nodes h i ops ≡ ok docs
      → All (λ d. d.height ≡ h) docs
  unfolding operation_docs
  operation_docs-heights nodes h i [] {docs} e =
      let same : [] ≡ docs = cc in subst (All (λ d. d.height ≡ h)) same tt
  operation_docs-heights nodes h i (op ∷ ops) {docs} e =
      with_ok
        (elim (lookup (dig.fact_hash op) nodes) [ none ↦ err (plain not_found) | some n ↦ ok n ]) _
        e
        λ n found r₁. with_ok (new_operation_doc dig op h n.in_state n.reason i) _ r₁ λ doc made r₂.
          with_ok (operation_docs dig nodes h (i + 1) ops) _ r₂ λ others rest same.
            let shape : doc ∷ others ≡ docs = cc in
            subst (All (λ d. d.height ≡ h)) shape (
              new_operation_doc-height op h n.in_state n.reason i made,
              operation_docs-heights nodes h (i + 1) ops rest,
            )

  account_doc-height :
      (st : api.Base) {doc : AccountDoc m}
      → account_doc dig st ≡ ok doc
      → doc.height ≡ dig.height st
  unfolding account_doc
  account_doc-height st e =
      with_ok (guard (is_state_account_key (dig.key st)) (plain wrong_value)) _ e λ u is_one r₁.
        with_ok (load_state_account_value {api = api} (plain_state st)) _ r₁ λ ac loaded same. cc

  balance_doc-height :
      (st : api.Base) {doc : BalanceDoc api}
      → balance_doc dig st ≡ ok doc
      → doc.height ≡ dig.height st
  unfolding balance_doc
  balance_doc-height st e =
      with_ok (state_balance_value {api = api} (plain_state st)) _ e λ am loaded r₁.
        with_ok
          (guard (leb (length balance_suffix + length am.cid + 1) (length (dig.key st))) panic) _ r₁
          λ u fits same. cc

  -- Documents of states of one height.
  abbrev HaveHeight : ℤ → List (AccountDoc m) × List (BalanceDoc api) → Type 0
  HaveHeight h docs = All (λ d. d.height ≡ h) docs.0 × All (λ d. d.height ≡ h) docs.1

  state_docs-HaveHeight :
      (h : ℤ) (sts : List api.Base) {docs : List (AccountDoc m) × List (BalanceDoc api)}
      → All (λ st. dig.height st ≡ h) sts
      → state_docs dig sts ≡ ok docs
      → HaveHeight h docs
  unfolding state_docs
  state_docs-HaveHeight h [] {docs} hs e =
      let same : ([], []) ≡ docs = cc in subst (HaveHeight h) same (tt, tt)
  state_docs-HaveHeight h (st ∷ sts) {docs} hs e =
      elim (Bool-cases (is_state_account_key (dig.key st))) [
        | inl account ↦ with_ok (account_doc dig st) _ (if-true _ _ account e) λ doc made r₁.
            with_ok (state_docs dig sts) _ r₁ λ others rest same.
              let shape : (doc ∷ others.0, others.1) ≡ docs = cc in
              let tail = state_docs-HaveHeight h sts hs.1 rest in
              subst (HaveHeight h) shape ((account_doc-height st made ∙ hs.0, tail.0), tail.1)
        | inr other ↦ elim (Bool-cases (is_state_balance_key (dig.key st))) [
          | inl balance ↦
              with_ok (balance_doc dig st) _ (if-true _ _ balance (if-false _ _ other e))
                λ doc made r₁. with_ok (state_docs dig sts) _ r₁ λ others rest same.
                  let shape : (others.0, doc ∷ others.1) ≡ docs = cc in
                  let tail = state_docs-HaveHeight h sts hs.1 rest in
                  subst (HaveHeight h) shape (tail.0, (balance_doc-height st made ∙ hs.0, tail.1))
          | inr neither ↦
              state_docs-HaveHeight h sts hs.1 (if-false _ _ neither (if-false _ _ other e))
        ]
      ]

  -- The documents that a block has all stand at its height.
  record AreOf (h : ℤ) (models : Models dig) : Type 0 where
    operations : All (λ d. d.height ≡ h) models.operation_models
    accounts : All (λ d. d.height ≡ h) models.account_models
    balances : All (λ d. d.height ≡ h) models.balance_models

  prepare-AreOf :
      (blk : Block dig) {models : Models dig}
      → All (λ st. dig.height st ≡ blk.height) blk.states
      → prepare dig blk ≡ ok models
      → AreOf blk.height models
  unfolding prepare
  prepare-AreOf blk {models} hs e =
      with_ok (operation_docs dig _ blk.height 0 blk.operations) _ e λ ops made r₁.
        with_ok (state_docs dig blk.states) _ r₁ λ docs made' same.
          let shape : record {
            operation_models = ops;
            account_models = docs.0;
            balance_models = docs.1;
          }
              ≡ models =
            cc in
          let states = state_docs-HaveHeight blk.height blk.states hs made' in
          subst (AreOf blk.height) shape (record {
            operations = operation_docs-heights _ blk.height 0 blk.operations made;
            accounts = states.0;
            balances = states.1;
          })

  -- Cleaning takes out what stands at the height, and nothing that an earlier cleaning left.
  below_again :
      (mongo : Driver) {D : Type 0} (height : D → ℤ) (h : ℤ) (old new : List D)
      → All (λ d. height d ≡ h) new
      → below dig mongo height h (below dig mongo height h old ++ new)
        ≡ below dig mongo height h old
  below_again mongo height h old new hs =
      elim (Bool-cases (leb_ℤ h (dig.pre_genesis_height +ℤ pos 1))) [
        | inl low ↦ rw low refl
        | inr high ↦
            let out =
              All-map
                (λ d (at : height d ≡ h).
                  rw at (let self : ltb_ℤ h h ≡ false = ground arith in self))
                new hs in
            rw high (
              keep-append (λ d. ltb_ℤ (height d) h) _ new
              ∙ ap (λ xs. keep (λ d. ltb_ℤ (height d) h) (keep (λ d. ltb_ℤ (height d) h) old) ++ xs)
                  (keep-none (λ d. ltb_ℤ (height d) h) new out)
              ∙ append-nil _
              ∙ keep-keep (λ d. ltb_ℤ (height d) h) old)
      ]

  -- Cleaning permuted documents leaves permuted documents.
  below-perm :
      (mongo : Driver) {D : Type 0} (height : D → ℤ) (h : ℤ) {xs ys : List D}
      → Perm xs ys
      → Perm (below dig mongo height h xs) (below dig mongo height h ys)
  below-perm mongo height h p = elim (Bool-cases (leb_ℤ h (dig.pre_genesis_height +ℤ pos 1))) [
    | inl low ↦ rw low (Perm.refl [])
    | inr high ↦ rw high (keep-perm (λ d. ltb_ℤ (height d) h) p)
  ]

  -- A collection that is cleaned and written a second time.
  written_again :
      (mongo : Driver) {D : Type 0} (height : D → ℤ) (h : ℤ) (old new : List D)
      {first second new' : List D}
      → All (λ d. height d ≡ h) new
      → Perm first (below dig mongo height h old ++ new)
      → Perm second (below dig mongo height h first ++ new')
      → new' ≡ new
      → Perm second first
  written_again mongo height h old new {first} {second} {new'} at once twice same =
      let kept : Perm (below dig mongo height h first) (below dig mongo height h old) =
        Perm.trans (below-perm mongo height h once)
          (Perm-path (below_again mongo height h old new at)) in
      let renewed : Perm second (below dig mongo height h old ++ new') =
        Perm.trans twice (Perm.append_right new' kept) in
      Perm.trans
        (Perm.trans renewed (Perm-path (ap (λ xs. below dig mongo height h old ++ xs) same)))
        (Perm.symm once)

module _ {m : Mitum} {api : StateApi m} (dig : DigestApi api) (mongo : Driver) where
  -- If a block whose states all stand at its height is digested twice, one time after the other,
  -- and both succeed, then the collections of accounts, balances and operations hold after the
  -- second time the documents that they held after the first, each as often, in whatever order.
  pub digest_block-again :
      (blk : Block dig) (st : Database) (t : Tables dig mongo) {r r' : Database × Tables dig mongo}
      → All (λ s. dig.height s ≡ blk.height) blk.states
      → digest_block dig mongo blk st t ≡ ok r
      → digest_block dig mongo blk r.0 r.1 ≡ ok r'
      → Perm (mongo.documents r'.1.accounts) (mongo.documents r.1.accounts)
        × Perm (mongo.documents r'.1.balances) (mongo.documents r.1.balances)
        × Perm (mongo.documents r'.1.operations) (mongo.documents r.1.operations)
  digest_block-again blk st t {r} {r'} hs first second =
      let (ms, d) = digest_block-IsDigested dig mongo blk st t first in
      let (ms', d') = digest_block-IsDigested dig mongo blk r.0 r.1 second in
      let same : ms' ≡ ms = let p = d.prepared in let p' = d'.prepared in cc in
      let at = prepare-AreOf dig blk hs d.prepared in
      let h = blk.height in
      (
        written_again dig mongo (λ x. x.height) h _ _ at.accounts d.accounts d'.accounts
            (ap (λ n. n.account_models) same),
        written_again dig mongo (λ x. x.height) h _ _ at.balances d.balances d'.balances
            (ap (λ n. n.balance_models) same),
        written_again dig mongo (λ x. x.height) h _ _ at.operations d.operations d'.operations
            (ap (λ n. n.operation_models) same),
      )
