-- ===== src/Digest/FollowUp.antt =====
-- cmds/process_digester.go: the digesting of the blocks that a node has missed.
use mitum_currency.Prelude.{
  ℕ, zero, suc, ◌+◌, ◌-◌, ◌<◌, true, false, some, ◌≡◌, sym, ap, ◌∙◌, subst, Result, ok, with_ok,
  ◌>>=◌, arith, if◌then◌else◌, Bool-cases, inl, inr, if-false,
}
use mitum_currency.Prelude.Int.{
  ℤ, pos, pos_part, neg_part, ◌+ℤ◌, ◌-ℤ◌, ◌≤ℤ◌, leb_ℤ, ltb_ℤ, int_laws,
}
use mitum_currency.Mitum.{Mitum}
use mitum_currency.State.{StateApi}
use mitum_currency.Digest.Driver.{DigestApi, Driver}
use mitum_currency.Digest.Database.{Tables, Database}
use mitum_currency.Digest.Session.{Block, digest_block}
use mitum_currency.Digest.Digesting.{height_below, digest_block-IsDigested}

module _ {m : Mitum} {api : StateApi m} (dig : DigestApi api) (mongo : Driver) where
  -- What stands after a block above the last one was digested
  abbrev pub IsUpTo : ℤ → Database × Tables dig mongo → Type 0
  IsUpTo h r = (r.0.last_block ≡ h) × (mongo.info r.1.last_block ≡ ok (some (dig.height_bytes h)))

  digest_block-IsUpTo :
      (blk : Block dig) (st : Database) (t : Tables dig mongo) {r : Database × Tables dig mongo}
      → ltb_ℤ st.last_block blk.height ≡ true
      → digest_block dig mongo blk st t ≡ ok r
      → IsUpTo blk.height r
  digest_block-IsUpTo blk st t {r} new ran =
      let (ms, d) = digest_block-IsDigested dig mongo blk st t ran in
      let above : leb_ℤ blk.height st.last_block ≡ false = ground arith in
      (
        d.last_block ∙ ap (λ b. if b then st.last_block else blk.height) above,
        d.info
            ∙ ap
                (λ b. ok (
                  some (
                    dig.height_bytes
                      (if b then height_below dig mongo blk.height else blk.height))))
                above,
      )

  -- A block below a height leaves the last block below it.
  digest_block-below :
      (h : ℤ) (blk : Block dig) (st : Database) (t : Tables dig mongo)
      {r : Database × Tables dig mongo}
      → ltb_ℤ st.last_block h ≡ true
      → ltb_ℤ blk.height h ≡ true
      → digest_block dig mongo blk st t ≡ ok r
      → ltb_ℤ r.0.last_block h ≡ true
  digest_block-below h blk st t {r} old new ran =
      let (ms, d) = digest_block-IsDigested dig mongo blk st t ran in
      elim (Bool-cases (leb_ℤ blk.height st.last_block)) [
        | inl known ↦
            let same : r.0.last_block ≡ st.last_block =
              d.last_block ∙ ap (λ b. if b then st.last_block else blk.height) known in
            ap (λ x. ltb_ℤ x h) same ∙ old
        | inr above ↦
            let same : r.0.last_block ≡ blk.height =
              d.last_block ∙ ap (λ b. if b then st.last_block else blk.height) above in
            ap (λ x. ltb_ℤ x h) same ∙ new
      ]

module _ {m : Mitum} {api : StateApi m} (dig : DigestApi api) (mongo : Driver)
    (load_block : ℤ → Result (Block dig)) where
  -- The loop: so many blocks from a height on.
  unfoldable pub digest_from :
      ℕ → ℤ → Database → Tables dig mongo → Result (Database × Tables dig mongo)
  digest_from zero i st t = ok (st, t)
  digest_from (suc n) i st t = do
    blk ← load_block i
    r ← digest_block dig mongo blk st t
    digest_from n (i +ℤ pos 1) r.0 r.1

  -- The first height, the last block itself
  unfoldable pub first_height : ℤ → ℤ
  first_height last_block =
      if ltb_ℤ last_block dig.pre_genesis_height then dig.pre_genesis_height else last_block

  -- `digestFollowup`
  unfoldable pub digest_followup :
      ℤ → Database → Tables dig mongo → Result (Database × Tables dig mongo)
  unfolding digest_from first_height
  digest_followup height st t =
      let start = first_height st.last_block in
      if leb_ℤ height st.last_block
      then ok (st, t)
      else digest_from (pos_part (height -ℤ start +ℤ pos 1)) start st t

  first_height-low :
      (height last_block : ℤ)
      → ltb_ℤ last_block height ≡ true
      → leb_ℤ dig.pre_genesis_height height ≡ true
      → first_height last_block ≤ℤ height
  unfolding first_height
  first_height-low height last_block new real =
      elim (Bool-cases (ltb_ℤ last_block dig.pre_genesis_height)) [
        | inl early ↦ rw early (let up : dig.pre_genesis_height ≤ℤ height = ground arith in up)
        | inr late ↦ rw late (let up : last_block ≤ℤ height = ground arith in up)
      ]

  module _ (loads : (i : ℤ) (blk : Block dig) → load_block i ≡ ok blk → blk.height ≡ i) where
    digest_from-IsUpTo :
        (n : ℕ) (i : ℤ) (st : Database) (t : Tables dig mongo) {r : Database × Tables dig mongo}
        → ltb_ℤ st.last_block (i +ℤ pos n) ≡ true
        → digest_from (suc n) i st t ≡ ok r
        → IsUpTo dig mongo (i +ℤ pos n) r
    unfolding digest_from
    digest_from-IsUpTo zero i st t {r} new e = with_ok (load_block i) _ e λ blk loaded r₁.
        with_ok (digest_block dig mongo blk st t) _ r₁ λ s ran same.
          let here : s ≡ r = cc in
          let at : blk.height ≡ i +ℤ pos 0 = loads i blk loaded ∙ omega int_laws in
          subst (IsUpTo dig mongo (i +ℤ pos 0)) here (
            subst (λ h. IsUpTo dig mongo h s) at
              (digest_block-IsUpTo dig mongo blk st t (ap (ltb_ℤ st.last_block) at ∙ new) ran))
    digest_from-IsUpTo (suc n) i st t {r} new e = with_ok (load_block i) _ e λ blk loaded r₁.
        with_ok (digest_block dig mongo blk st t) _ r₁ λ s ran rest.
          let end : i +ℤ pos (suc n) ≡ i +ℤ pos 1 +ℤ pos n = omega int_laws in
          let low : ltb_ℤ i (i +ℤ pos 1 +ℤ pos n) ≡ true =
            let less : pos_part i + neg_part (i +ℤ pos 1 +ℤ pos n)
                < pos_part (i +ℤ pos 1 +ℤ pos n) + neg_part i =
              omega int_laws in
            ground arith in
          let under =
            digest_block-below dig mongo (i +ℤ pos 1 +ℤ pos n) blk st t
              (ap (ltb_ℤ st.last_block) (sym end) ∙ new)
              (ap (λ h. ltb_ℤ h (i +ℤ pos 1 +ℤ pos n)) (loads i blk loaded) ∙ low) ran in
          subst (λ h. IsUpTo dig mongo h r) (sym end)
            (digest_from-IsUpTo n (i +ℤ pos 1) s.0 s.1 under rest)

    -- If blocks are loaded with the heights that are asked for and the height is above the last
    -- block and not below the pre-genesis height, then `digestFollowup`, if it succeeds, leaves
    -- that height as the last block of the database handle and as the stored one.
    pub digest_followup-IsUpTo :
        (height : ℤ) (st : Database) (t : Tables dig mongo) {r : Database × Tables dig mongo}
        → ltb_ℤ st.last_block height ≡ true
        → leb_ℤ dig.pre_genesis_height height ≡ true
        → digest_followup height st t ≡ ok r
        → IsUpTo dig mongo height r
    unfolding digest_followup
    digest_followup-IsUpTo height st t {r} new real e =
        let start = first_height st.last_block in
        let behind : leb_ℤ height st.last_block ≡ false = ground arith in
        let run = if-false _ _ behind e in
        let low : start ≤ℤ height = first_height-low height st.last_block new real in
        let k = pos_part height + neg_part start - (pos_part start + neg_part height) in
        let last : start +ℤ pos k ≡ height = omega int_laws in
        let rounds : height -ℤ start +ℤ pos 1 ≡ pos (suc k) = omega int_laws in
        subst (λ h. IsUpTo dig mongo h r) last
          (digest_from-IsUpTo k start st t (ap (ltb_ℤ st.last_block) last ∙ new)
            (subst (λ z. digest_from (pos_part z) start st t ≡ ok r) rounds run))
