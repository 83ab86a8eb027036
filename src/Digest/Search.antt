-- ===== src/Digest/Search.antt =====
-- digest/database.go and digest/handler_operation.go: the searches for operations, page by page.
pub mod Order
pub mod Pages
pub mod Complete
mod Tests
use mitum_currency.Prelude.{
  ℕ, suc, ◌+◌, ◌^◌, Bool, true, false, Option, none, some, List, [], ◌∷◌, ltb, eqb, length, Result,
  ok, err, ◌>>=◌, ◌>>◌, if◌then◌else◌, ◌&&◌, ◌||◌,
}
use mitum_currency.Prelude.Int.{ℤ, pos, pos_part, leb_ℤ, ltb_ℤ}
use mitum_currency.Prelude.Slices.{take}
use mitum_currency.Prelude.Bytes.{Bytes, bytes_eq_instance}
use mitum_currency.Keys.{contains_text}
use mitum_currency.Mitum.{Mitum}
use mitum_currency.StateKey.{Address, state_address_key_prefix}
use mitum_currency.State.{StateApi}
use mitum_currency.Digest.Driver.{DigestApi}
use mitum_currency.Digest.Database.{OperationDoc}
use mitum_currency.Digest.Offset.{parse_offset, parse_uint, build_offset}

-- The filters that the package builds, as BSON documents.
pub data Filter : Type 0 where
  everything : Filter
  addresses_in : Bytes → Filter
  height_is height_lt height_gt : ℤ → Filter
  index_lt index_gt : ℕ → Filter
  both either : Filter → Filter → Filter

-- What lies behind a position.
unfoldable pub beyond : Bool → ℤ → ℕ → Filter
beyond true h i = either (height_lt h) (both (height_is h) (index_lt i))
beyond false h i = either (height_gt h) (both (height_is h) (index_gt i))

-- `maxLimit`
abbrev pub max_limit : ℕ
max_limit = 50

-- The limit that a search is given.
unfoldable pub search_limit : ℤ → Option ℕ
search_limit limit =
    if leb_ℤ limit (pos 0)
    then none
    else if ltb_ℤ (pos max_limit) limit
    then some max_limit
    else some (pos_part limit)

module _ {m : Mitum} {api : StateApi m} (dig : DigestApi api) where
  -- `buildOperationsFilterByAddress`
  unfoldable pub filter_by_address : Address → Bytes → Bool → Result Filter
  filter_by_address a [] reverse = ok (addresses_in (state_address_key_prefix a))
  filter_by_address a (c ∷ offset) reverse = do
    at ← parse_offset dig (c ∷ offset)
    ok (both (addresses_in (state_address_key_prefix a)) (beyond reverse at.0 at.1))

  -- `buildOperationsFilterByOffset`
  unfoldable pub filter_by_offset : Bytes → Bool → Result Filter
  filter_by_offset [] reverse = ok everything
  filter_by_offset (c ∷ offset) reverse = do
    at ← parse_offset dig (c ∷ offset)
    ok (beyond reverse at.0 at.1)

  -- What MongoDB selects by a filter.
  unfoldable pub selects : Filter → OperationDoc dig → Bool
  selects everything d = true
  selects (addresses_in a) d = contains_text a d.addresses
  selects (height_is h) d = leb_ℤ h d.height && leb_ℤ d.height h
  selects (height_lt h) d = ltb_ℤ d.height h
  selects (height_gt h) d = ltb_ℤ h d.height
  selects (index_lt i) d = ltb d.index i
  selects (index_gt i) d = ltb i d.index
  selects (both f g) d = selects f d && selects g d
  selects (either f g) d = selects f d || selects g d

  -- The offset of `nextOffsetOfOperations`: the position of the last operation, if there is one
  unfoldable pub next_offset : List (OperationDoc dig) → Bytes
  next_offset [] = []
  next_offset (d ∷ []) = build_offset d.height d.index
  next_offset (d ∷ e ∷ ds) = next_offset (e ∷ ds)

  module _ (find : Filter → Bool → Option ℕ → Result (List (OperationDoc dig))) where
    -- `OperationsByAddress`, with a callback that gathers all that it is given
    unfoldable pub operations_by_address :
        Address → Bool → Bytes → ℤ → Result (List (OperationDoc dig))
    operations_by_address a reverse offset limit = do
      f ← filter_by_address a offset reverse
      find f reverse (search_limit limit)

    -- `Operations`, behind `buildOperationsFilterByOffset`
    unfoldable pub operations : Bool → Bytes → ℤ → Result (List (OperationDoc dig))
    operations reverse offset limit = do
      f ← filter_by_offset offset reverse
      find f reverse (search_limit limit)

-- `buildOperationsByHeightFilterByOffset`
unfoldable pub filter_by_height : ℤ → Bytes → Bool → Result Filter
filter_by_height h [] reverse = ok (height_is h)
filter_by_height h (c ∷ offset) reverse = do
  i ← parse_uint (c ∷ offset)
  ok (both (height_is h) (if reverse then index_lt i else index_gt i))

-- The first documents, if there is a limit.
abbrev pub limited {ℓ} : {D : Type ℓ} → Option ℕ → List D → List D
limited none ds = ds
limited (some n) ds = take n ds
