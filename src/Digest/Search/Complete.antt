-- ===== src/Digest/Search/Complete.antt =====
-- digest/database.go, digest/handler_operation.go and digest/handler_account.go: the pages of a search
-- together are all that it selects.
use mitum_currency.Prelude.{
  ℕ, ◌<◌, ◌^◌, ◌≡◌, refl, sym, ap, ◌∙◌, subst, Bool, true, Option, List, [], ◌∷◌, ◌++◌, length, All,
  Result, ok, ◌>>=◌, ◌&&◌,
}
use mitum_currency.Prelude.Int.{ℤ}
use mitum_currency.Prelude.Slices.{keep}
use mitum_currency.Prelude.Bytes.{Bytes, bytes_eq_instance}
use mitum_currency.Keys.{contains_text}
use mitum_currency.Mitum.{Mitum}
use mitum_currency.StateKey.{Address, state_address_key_prefix}
use mitum_currency.State.{StateApi}
use mitum_currency.Digest.Driver.{DigestApi}
use mitum_currency.Digest.Database.{OperationDoc}
use mitum_currency.Prelude.Decimal.{int_text_of}
use mitum_currency.Digest.Offset.{build_offset, parse_offset, read_parts, split_comma}
use mitum_currency.Digest.Offset.Reading.{parse_offset-build_offset}
use mitum_currency.Digest.Search.{
  Filter, everything, addresses_in, both, beyond, selects, search_limit, filter_by_address,
  filter_by_offset, operations_by_address, operations, limited,
}
use mitum_currency.Digest.Search.Order.{
  keep-and, keep-same, selects-beyond, keep-All, All-middle, follows, IsOrdered, keep-follows,
  keep-IsOrdered,
}
use mitum_currency.Digest.Search.Pages.{read_pages, read_pages-rest, search_limit-IsPositive}

module _ {m : Mitum} {api : StateApi m} (dig : DigestApi api) where
  -- An operation whose position can be read back.
  abbrev pub IsReadable : OperationDoc dig → Type 0
  IsReadable d = (dig.height_from_string (int_text_of d.height) ≡ ok d.height) × (d.index < 2 ^ 64)

  -- Whether an operation concerns an address.
  abbrev pub concerns : Address → OperationDoc dig → Bool
  concerns a d = contains_text (state_address_key_prefix a) d.addresses

  filter_by_address-at :
      (a : Address) (reverse : Bool) (offset : Bytes) {at : ℤ × ℕ}
      → parse_offset dig offset ≡ ok at
      → filter_by_address dig a offset reverse
        ≡ ok (both (addresses_in (state_address_key_prefix a)) (beyond reverse at.0 at.1))
  unfolding filter_by_address parse_offset read_parts split_comma
  filter_by_address-at a reverse [] e = absurd (cc)
  filter_by_address-at a reverse (c ∷ offset) e =
      ap
        (λ r. r >>= λ at.
          ok (both (addresses_in (state_address_key_prefix a)) (beyond reverse at.0 at.1)))
        e

  filter_by_offset-at :
      (reverse : Bool) (offset : Bytes) {at : ℤ × ℕ}
      → parse_offset dig offset ≡ ok at
      → filter_by_offset dig offset reverse ≡ ok (beyond reverse at.0 at.1)
  unfolding filter_by_offset parse_offset read_parts split_comma
  filter_by_offset-at reverse [] e = absurd (cc)
  filter_by_offset-at reverse (c ∷ offset) e = ap (λ r. r >>= λ at. ok (beyond reverse at.0 at.1)) e

  keep_every : (ds : List (OperationDoc dig)) → keep (λ d. true) ds ≡ ds
  keep_every [] = refl
  keep_every (d ∷ ds) = ap (λ es. d ∷ es) (keep_every ds)

  module _ (find : Filter → Bool → Option ℕ → Result (List (OperationDoc dig))) (reverse : Bool)
      (docs : List (OperationDoc dig)) where
    -- A search answers from these documents.
    abbrev pub Finds : Type 0
    Finds =
        (f : Filter) (l : Option ℕ) → find f reverse l ≡ ok (limited l (keep (selects dig f) docs))

    module _ (sorted : IsOrdered dig reverse docs) (readable : All IsReadable docs)
        (p : OperationDoc dig → Bool) (front : List (OperationDoc dig)) (d : OperationDoc dig)
        (rest : List (OperationDoc dig)) (here : front ++ (d ∷ rest) ≡ keep p docs) where
      -- What is selected behind a document that is selected.
      rest_of : keep (λ e. p e && selects dig (beyond reverse d.height d.index) e) docs ≡ rest
      rest_of =
          keep-same _ _ docs (λ e. ap (λ b. p e && b) (selects-beyond dig reverse d e))
          ∙ keep-and p (follows dig reverse d) docs
          ∙ ap (keep (follows dig reverse d)) (sym here)
          ∙ keep-follows dig reverse front d rest
              (subst (IsOrdered dig reverse) (sym here) (keep-IsOrdered dig reverse p docs sorted))

      position_of : parse_offset dig (build_offset d.height d.index) ≡ ok (d.height, d.index)
      position_of =
          let (reads, small) =
            All-middle IsReadable front d rest
              (subst (All IsReadable) (sym here) (keep-All IsReadable p docs readable)) in
          parse_offset-build_offset dig d.height d.index reads small

    -- If the database answers each search with the selected documents of a list that is strictly
    -- ordered by height and index (downwards if reversed), cut to the limit, and the heights and
    -- indexes of all documents can be read back from their texts, then following the offsets of
    -- the last operations from page to page, until a page is empty, gathers exactly the operations
    -- of the address, each once and in order, whatever the limit.
    pub operations_by_address_complete :
        (a : Address) (limit : ℤ) (n : ℕ)
        → Finds
        → IsOrdered dig reverse docs
        → All IsReadable docs
        → length (keep (concerns a) docs) < n
        → read_pages dig (λ o. operations_by_address dig find a reverse o limit) n []
          ≡ ok (keep (concerns a) docs)
    unfolding operations_by_address filter_by_address selects
    operations_by_address_complete a limit n finds sorted readable enough =
        let mine = keep (concerns a) docs in
        let page = search_limit limit in
        read_pages-rest dig (λ o. operations_by_address dig find a reverse o limit) page mine
          (search_limit-IsPositive limit)
          (λ front d rest here.
            ap (λ r. r >>= λ f. find f reverse page)
              (filter_by_address-at a reverse _
                (position_of sorted readable (concerns a) front d rest here))
            ∙ finds _ page
            ∙ ap (λ ds. ok (limited page ds))
                (rest_of sorted readable (concerns a) front d rest here))
          n [] mine [] refl (finds (addresses_in (state_address_key_prefix a)) page) enough

    -- If the database answers each search with the selected documents of a list that is strictly
    -- ordered by height and index (downwards if reversed), cut to the limit, and the heights and
    -- indexes of all documents can be read back from their texts, then following the offsets of
    -- the last operations from page to page, until a page is empty, gathers all operations, each
    -- once and in order, whatever the limit.
    pub operations_complete :
        (limit : ℤ) (n : ℕ)
        → Finds
        → IsOrdered dig reverse docs
        → All IsReadable docs
        → length docs < n
        → read_pages dig (λ o. operations dig find reverse o limit) n [] ≡ ok docs
    unfolding operations filter_by_offset selects
    operations_complete limit n finds sorted readable enough =
        let page = search_limit limit in
        let whole : keep (λ (d : OperationDoc dig). true) docs ≡ docs = keep_every docs in
        read_pages-rest dig (λ o. operations dig find reverse o limit) page docs
          (search_limit-IsPositive limit)
          (λ front d rest here.
            ap (λ r. r >>= λ f. find f reverse page)
              (filter_by_offset-at reverse _
                (position_of sorted readable (λ e. true) front d rest (here ∙ sym whole)))
            ∙ finds _ page
            ∙ ap (λ ds. ok (limited page ds))
                (rest_of sorted readable (λ e. true) front d rest (here ∙ sym whole)))
          n [] docs [] refl (finds everything page ∙ ap (λ ds. ok (limited page ds)) whole) enough
