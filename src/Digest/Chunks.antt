-- ===== src/Digest/Chunks.antt =====
-- digest/block_session.go: the chunks in which `writeModels` writes.
use mitum_currency.Prelude.{
  ℕ, zero, suc, ◌+◌, ◌*◌, ◌/◌, ◌%◌, ◌≤◌, ◌<◌, ◌≡◌, sym, ap, ◌∙◌, subst, false, List, [], ◌∷◌, ◌++◌,
  ltb, leb, eqb, length, ok, with_ok, guard, plain, external, arith, not, if◌then◌else◌, Bool-cases,
  inl, inr,
}
use mathlib.Core.List.{Perm, append_assoc, append-nil}
use mathlib.Core.List.Perm
use mitum_currency.Prelude.Slices.{Perm-path, take, slice, take-all, take-slice}
use mitum_currency.Digest.Driver.{Driver}
use mitum_currency.Digest.Session.{bulk_write_limit, write_chunk, write_chunks, write_models}

module _ (mongo : Driver) {D : Type 0} where
  write_chunk-appends :
      (ds : List D) (col : mongo.Collection D) {col' : mongo.Collection D}
      → write_chunk mongo ds col ≡ ok col'
      → Perm (mongo.documents col') (mongo.documents col ++ ds)
  unfolding write_chunk
  write_chunk-appends ds col {col'} e = with_ok (mongo.bulk_write false ds col) _ e λ r wrote rest.
      with_ok (guard (not (ltb r.1 1)) (plain external)) _ rest λ u some_written same.
        let here : r.0 ≡ col' = cc in
        subst (λ c. Perm (mongo.documents c) (mongo.documents col ++ ds)) here
          (mongo.bulk_write_law wrote)

  -- The end of the chunk that starts at `s`.
  abbrev chunk_end : ℕ → List D → ℕ
  chunk_end s ds =
      if ltb (length ds) (s + bulk_write_limit) then length ds else s + bulk_write_limit

  -- A prefix and the chunk after it make up the next prefix.
  take-chunk :
      (s : ℕ) (ds : List D)
      → s ≤ length ds
      → take s ds ++ slice s (chunk_end s ds) ds ≡ take (s + 500) ds
  take-chunk s ds h = elim (Bool-cases (ltb (length ds) (s + 500))) [
    | inl last ↦
        let short : length ds < s + 500 = ground arith in
        rw last (
          take-slice s (length ds) ds h
          ∙ take-all (length ds) ds (omega arith)
          ∙ sym (take-all (s + 500) ds (omega arith)))
    | inr inner ↦ rw inner (take-slice s (s + 500) ds (omega arith))
  ]

  write_chunks-appends :
      (z i : ℕ) (ds written : List D) (col : mongo.Collection D) {col' : mongo.Collection D}
      → (i + z) * 500 < length ds + 500
      → Perm (mongo.documents col) (written ++ take (i * 500) ds)
      → write_chunks mongo z i ds col ≡ ok col'
      → Perm (mongo.documents col') (written ++ take ((i + z) * 500) ds)
  unfolding write_chunks
  write_chunks-appends zero i ds written col {col'} few before e =
      let here : col ≡ col' = cc in
      let same : i * 500 ≡ (i + 0) * 500 = omega arith in
      subst (λ c. Perm (mongo.documents c) (written ++ take ((i + 0) * 500) ds)) here
        (Perm.trans before (Perm-path (ap (λ n. written ++ take n ds) same)))
  write_chunks-appends (suc z) i ds written col {col'} few before e =
      with_ok (write_chunk mongo (slice (i * 500) (chunk_end (i * 500) ds) ds) col) _ e
        λ mid wrote rest.
          let next : i * 500 + 500 ≡ (i + 1) * 500 = omega arith in
          let joined : (written ++ take (i * 500) ds) ++ slice (i * 500) (chunk_end (i * 500) ds) ds
              ≡ written ++ take ((i + 1) * 500) ds =
            append_assoc written _ _
            ∙ ap (λ xs. written ++ xs) (take-chunk (i * 500) ds (omega arith))
            ∙ ap (λ n. written ++ take n ds) next in
          let after : Perm (mongo.documents mid) (written ++ take ((i + 1) * 500) ds) =
            Perm.trans (write_chunk-appends _ col wrote)
              (Perm.trans (Perm.append_right _ before) (Perm-path joined)) in
          let all : (i + 1 + z) * 500 ≡ (i + suc z) * 500 = omega arith in
          Perm.trans (write_chunks-appends z (i + 1) ds written mid (omega arith) after rest)
            (Perm-path (ap (λ n. written ++ take n ds) all))

  -- If `writeModels` succeeds, the collection holds, in whatever order, what it held and all
  -- models, each as often as it is among them, into however many chunks they were cut.
  pub write_models-appends :
      (ds : List D) (col : mongo.Collection D) {col' : mongo.Collection D}
      → write_models mongo ds col ≡ ok col'
      → Perm (mongo.documents col') (mongo.documents col ++ ds)
  unfolding write_models
  write_models-appends [] col {col'} e =
      let here : col ≡ col' = cc in
      Perm-path (ap (λ c. mongo.documents c) (sym here) ∙ sym (append-nil (mongo.documents col)))
  write_models-appends (d ∷ ds') col {col'} e =
      let ds = d ∷ ds' in
      let n = length ds in
      let one : ltb n 1 ≡ false = ground arith in
      let z = if eqb (n % 500) 0 then n / 500 else n / 500 + 1 in
      elim (Bool-cases (leb n 500)) [
        | inl small ↦
            let whole : write_chunk mongo ds col ≡ ok col' = ground arith in
            write_chunk-appends ds col whole
        | inr large ↦
            let parts : write_chunks mongo z 0 ds col ≡ ok col' = ground arith in
            let few : (0 + z) * 500 < n + 500 = ground arith in
            let enough : n ≤ (0 + z) * 500 = ground arith in
            Perm.trans
              (write_chunks-appends z 0 ds (mongo.documents col) col few
                (Perm-path (sym (append-nil (mongo.documents col)))) parts)
              (Perm-path
                (ap (λ xs. mongo.documents col ++ xs) (take-all ((0 + z) * 500) ds enough)))
      ]
