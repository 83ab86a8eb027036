-- ===== src/Digest/Driver.antt =====
-- What the package digest takes from mitum and from the MongoDB driver: heights (base), the keys and
-- heights of states, operations, and the collections of a database. The laws are what MongoDB
-- documents of its commands, and that an info that was set is the one that is read. A collection has
-- no order of its own, and inserts that are not ordered may be done in any order: the laws speak of
-- the documents up to permutation.
use mathlib.Core.List.{Perm}
use mitum_currency.Prelude.{ℕ, Bool, Option, some, List, [], ◌++◌, Result, ok, ◌≡◌}
use mitum_currency.Prelude.Int.{ℤ, ltb_ℤ}
use mitum_currency.Prelude.Slices.{keep}
use mitum_currency.Prelude.Bytes.{Bytes}
use mitum_currency.Mitum.{Mitum}
use mitum_currency.StateKey.{Address}
use mitum_currency.State.{StateApi}

-- Heights are int64 in Go; those of blocks stay far from its ends.
pub record DigestApi {m : Mitum} (api : StateApi m) : Type 1 where
  pub nil_height : ℤ
  pub pre_genesis_height : ℤ
  pub height_bytes : ℤ → Bytes
  pub height_from_bytes : Bytes → Result ℤ
  pub height_from_string : Bytes → Result ℤ
  -- of a state
  pub key : api.Base → Bytes
  pub height : api.Base → ℤ
  pub previous_height : api.Base → ℤ
  -- an operation; `addresses` is there if its fact is a `currency.Addresses`
  pub Operation : Type 0
  pub fact_hash : Operation → Bytes
  pub addresses : Operation → Option (Result (List Address))
  -- a node of the tree of operations
  pub Reason : Type 0

pub record Driver : Type 1 where
  pub Collection : Type 0 → Type 0
  pub documents : {D : Type 0} → Collection D → List D
  pub drop : {D : Type 0} → Collection D → Result (Collection D)
  -- a `DeleteMany` of the documents whose height is at least the given one
  pub delete_from : {D : Type 0} → (D → ℤ) → ℤ → Collection D → Result (Collection D)
  -- a `BulkWrite` of inserts, with the flag of `SetOrdered` and the number of inserted documents
  pub bulk_write : {D : Type 0} → Bool → List D → Collection D → Result (Collection D × ℕ)
  pub Info : Type 0
  pub set_info : Bytes → Info → Result Info
  pub info : Info → Result (Option Bytes)
  pub drop_law : {D : Type 0} {c d : Collection D} → drop c ≡ ok d → documents d ≡ []
  pub delete_from_law :
      {D : Type 0} {height : D → ℤ} {h : ℤ} {c d : Collection D}
      → delete_from height h c ≡ ok d
      → Perm (documents d) (keep (λ x. ltb_ℤ (height x) h) (documents c))
  pub bulk_write_law :
      {D : Type 0} {ordered : Bool} {ds : List D} {c d : Collection D} {n : ℕ}
      → bulk_write ordered ds c ≡ ok (d, n)
      → Perm (documents d) (documents c ++ ds)
  pub info_law : {b : Bytes} {i j : Info} → set_info b i ≡ ok j → info j ≡ ok (some b)
