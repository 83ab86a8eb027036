-- ===== src/Digest/Digesting.antt =====
-- digest/digest.go, digest/block_session.go and digest/database.go: what digesting a block does.
use mitum_currency.Prelude.{
  ◌≡◌, refl, subst, true, not, some, List, [], ◌++◌, ok, with_ok, guard, plain, external,
  if◌then◌else◌, Bool-cases, inl, inr,
}
use mitum_currency.Prelude.Int.{ℤ, pos, ◌+ℤ◌, ◌-ℤ◌, leb_ℤ, ltb_ℤ}
use mitum_currency.Prelude.Slices.{Perm-path, keep}
use mathlib.Core.List.{Perm}
use mathlib.Core.List.Perm
use mitum_currency.Mitum.{Mitum}
use mitum_currency.State.{StateApi}
use mitum_currency.Digest.Driver.{DigestApi, Driver}
use mitum_currency.Digest.Database.{
  Tables, Database, reopen, put_last_block, set_last_block, clean, clean_by_height_unlocked,
  clean_by_height,
}
use mitum_currency.Digest.Session.{Block, Models, prepare, write_models, commit, digest_block}
use mitum_currency.Digest.Chunks.{write_models-appends}

module _ {m : Mitum} {api : StateApi m} (dig : DigestApi api) (mongo : Driver) where
  -- The documents that cleaning from a height on leaves.
  abbrev pub below : {D : Type 0} → (D → ℤ) → ℤ → List D → List D
  below height h ds =
      if leb_ℤ h (dig.pre_genesis_height +ℤ pos 1) then [] else keep (λ d. ltb_ℤ (height d) h) ds

  -- The last block that cleaning from a height on leaves.
  abbrev pub height_below : ℤ → ℤ
  height_below h = if leb_ℤ h (dig.pre_genesis_height +ℤ pos 1) then dig.nil_height else h -ℤ pos 1

  -- The tables after cleaning.
  pub record IsCleaned (h : ℤ) (t t' : Tables dig mongo) : Type 0 where
    pub accounts :
        Perm (mongo.documents t'.accounts) (below (λ d. d.height) h (mongo.documents t.accounts))
    pub balances :
        Perm (mongo.documents t'.balances) (below (λ d. d.height) h (mongo.documents t.balances))
    pub operations :
        Perm
          (mongo.documents t'.operations)
          (below (λ d. d.height) h (mongo.documents t.operations))
    pub info : mongo.info t'.last_block ≡ ok (some (dig.height_bytes (height_below h)))

  put_last_block-info :
      (h : ℤ) (st : Database) (t : Tables dig mongo) {r : Database × Tables dig mongo}
      → put_last_block dig mongo h st t ≡ ok r
      → (i : mongo.Info) × (mongo.info i ≡ ok (some (dig.height_bytes h)))
        × (r ≡ (record st { last_block = h }, record t { last_block = i }))
  unfolding put_last_block
  put_last_block-info h st t e =
      with_ok (mongo.set_info (dig.height_bytes h) t.last_block) _ e
        λ i put same. (i, mongo.info_law put, cc)

  clean-IsCleaned :
      (h : ℤ) (st : Database) (t : Tables dig mongo) {r : Database × Tables dig mongo}
      → leb_ℤ h (dig.pre_genesis_height +ℤ pos 1) ≡ true
      → clean dig mongo st t ≡ ok r
      → IsCleaned h t r.1
  unfolding clean
  clean-IsCleaned h st t {r} low e = with_ok (mongo.drop t.accounts) _ e λ as' das r₁.
      with_ok (mongo.drop t.balances) _ r₁ λ bs dbs r₂.
        with_ok (mongo.drop t.operations) _ r₂ λ os dos r₃.
          let (i, at, same) =
            put_last_block-info dig.nil_height st
              (record t { accounts = as'; balances = bs; operations = os }) r₃ in
          rw same (record {
            accounts = rw low (Perm-path (mongo.drop_law das));
            balances = rw low (Perm-path (mongo.drop_law dbs));
            operations = rw low (Perm-path (mongo.drop_law dos));
            info = rw low at;
          })

  clean_by_height_unlocked-IsCleaned :
      (h : ℤ) (st : Database) (t : Tables dig mongo) {r : Database × Tables dig mongo}
      → clean_by_height_unlocked dig mongo h st t ≡ ok r
      → IsCleaned h t r.1
  unfolding clean_by_height_unlocked
  clean_by_height_unlocked-IsCleaned h st t {r} e =
      elim (Bool-cases (leb_ℤ h (dig.pre_genesis_height +ℤ pos 1))) [
        | inl low ↦ clean-IsCleaned h st t low (rw (clean_by_height_unlocked, low) at e)
        | inr high ↦
            with_ok (mongo.delete_from (λ d. d.height) h t.accounts) _
              (rw (clean_by_height_unlocked, high) at e)
              λ as' das r₁.
                with_ok (mongo.delete_from (λ d. d.height) h t.balances) _ r₁ λ bs dbs r₂.
                  with_ok (mongo.delete_from (λ d. d.height) h t.operations) _ r₂ λ os dos r₃.
                    let (i, at, same) =
                      put_last_block-info (h -ℤ pos 1) st
                        (record t { accounts = as'; balances = bs; operations = os }) r₃ in
                    rw same (record {
                      accounts = rw high (mongo.delete_from_law das);
                      balances = rw high (mongo.delete_from_law dbs);
                      operations = rw high (mongo.delete_from_law dos);
                      info = rw high at;
                    })
      ]

  -- The tables after a block was digested, whose documents are the models.
  pub record IsDigested (blk : Block dig) (models : Models dig) (st : Database)
      (t : Tables dig mongo) (st' : Database) (t' : Tables dig mongo) : Type 0 where
    pub prepared : prepare dig blk ≡ ok models
    pub accounts :
        Perm
          (mongo.documents t'.accounts)
          (below (λ d. d.height) blk.height (mongo.documents t.accounts) ++ models.account_models)
    pub balances :
        Perm
          (mongo.documents t'.balances)
          (below (λ d. d.height) blk.height (mongo.documents t.balances) ++ models.balance_models)
    pub operations :
        Perm (mongo.documents t'.operations) (
          below (λ d. d.height) blk.height (mongo.documents t.operations)
          ++ models.operation_models)
    pub last_block :
        st'.last_block ≡ (if leb_ℤ blk.height st.last_block then st.last_block else blk.height)
    pub info :
        mongo.info t'.last_block
        ≡ ok (
            some (
              dig.height_bytes
                (if leb_ℤ blk.height st.last_block then height_below blk.height else blk.height)))

  -- The tables between cleaning and `SetLastBlock`.
  record IsCommitted (h : ℤ) (models : Models dig) (t t' : Tables dig mongo) : Type 0 where
    accounts :
        Perm
          (mongo.documents t'.accounts)
          (below (λ d. d.height) h (mongo.documents t.accounts) ++ models.account_models)
    balances :
        Perm
          (mongo.documents t'.balances)
          (below (λ d. d.height) h (mongo.documents t.balances) ++ models.balance_models)
    operations :
        Perm
          (mongo.documents t'.operations)
          (below (λ d. d.height) h (mongo.documents t.operations) ++ models.operation_models)
    info : mongo.info t'.last_block ≡ ok (some (dig.height_bytes (height_below h)))

  commit-IsCommitted :
      (h : ℤ) (models : Models dig) (st : Database) (t : Tables dig mongo) {t' : Tables dig mongo}
      → commit dig mongo h models st t ≡ ok t'
      → IsCommitted h models t t'
  unfolding commit clean_by_height
  commit-IsCommitted h models st t {t'} e =
      with_ok (clean_by_height dig mongo h st t) _ e λ cleaned clean' r₁.
        with_ok (write_models mongo models.operation_models cleaned.1.operations) _ r₁ λ os wos r₂.
          with_ok (write_models mongo models.account_models cleaned.1.accounts) _ r₂ λ as' was r₃.
            with_ok (write_models mongo models.balance_models cleaned.1.balances) _ r₃
              λ bs wbs same.
                with_ok (guard (not st.readonly) (plain external)) _ clean' λ u writable cleaning.
                  let c = clean_by_height_unlocked-IsCleaned h st t cleaning in
                  let shape : record cleaned.1 { operations = os; accounts = as'; balances = bs }
                      ≡ t' =
                    cc in
                  subst (IsCommitted h models t) shape (record {
                    accounts =
                        Perm.trans (write_models-appends mongo _ _ was)
                          (Perm.append_right _ c.accounts);
                    balances =
                        Perm.trans (write_models-appends mongo _ _ wbs)
                          (Perm.append_right _ c.balances);
                    operations =
                        Perm.trans (write_models-appends mongo _ _ wos)
                          (Perm.append_right _ c.operations);
                    info = c.info;
                  })

  -- If `DigestBlock` succeeds, each collection holds, in whatever order, the documents that
  -- `Prepare` makes of the block and, of those it held, those below its height (none, for a height
  -- up to the one after the pre-genesis height); the last block of the database handle is the
  -- greater of the old one and the height; and the stored info is the height if it is above the
  -- last block, but the one below it (or the nil height) if it is not.
  pub digest_block-IsDigested :
      (blk : Block dig) (st : Database) (t : Tables dig mongo) {r : Database × Tables dig mongo}
      → digest_block dig mongo blk st t ≡ ok r
      → (models : Models dig) × IsDigested blk models st t r.0 r.1
  unfolding digest_block set_last_block
  digest_block-IsDigested blk st t {r} e = with_ok (reopen dig mongo st) _ e λ nst opened r₁.
      with_ok (prepare dig blk) _ r₁ λ models made r₂.
        with_ok (commit dig mongo blk.height models nst t) _ r₂ λ written wrote r₃.
          with_ok (guard (not st.readonly) (plain external)) _ r₃ λ u writable r₄.
            let c = commit-IsCommitted blk.height models nst t wrote in
            (
              models,
              elim (Bool-cases (leb_ℤ blk.height st.last_block)) [
                | inl known ↦
                    let same : ok (st, written) ≡ ok r = rw known at r₄ in
                    let shape : (st, written) ≡ r = cc in
                    rw (← shape) (record {
                      prepared = made;
                      accounts = c.accounts;
                      balances = c.balances;
                      operations = c.operations;
                      last_block = rw known refl;
                      info = rw known c.info;
                    })
                | inr new ↦
                    let (i, at, shape) = put_last_block-info blk.height st written (rw new at r₄) in
                    rw shape (record {
                      prepared = made;
                      accounts = c.accounts;
                      balances = c.balances;
                      operations = c.operations;
                      last_block = rw new refl;
                      info = rw new at;
                    })
              ],
            )
