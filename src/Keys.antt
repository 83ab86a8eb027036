-- ===== src/Keys.antt =====
-- currency/keys.go, currency/address.go and currency/account.go: weighted keys, the check of
-- signatures against a threshold, addresses made from keys, and accounts.
pub mod Sorting
pub mod Distinct
pub mod Threshold
pub mod Liveness
mod Tests
use mitum_currency.Prelude.{
  ℕ, ◌+◌, ◌%◌, ◌^◌, Bool, true, false, not, ◌||◌, ◌&&◌, Option, none, some, List, [], ◌∷◌, ◌++◌,
  ltb, eqb, length, if◌then◌else◌, Result, ok, err, plain, invalid, external, duplicated,
  unknown_key, not_enough_weight, ◌>>=◌, ◌>>◌, guard,
}
use mitum_currency.Prelude.Bytes.{Bytes, bytes_eq}
use mitum_currency.Mitum.{Mitum}
use mitum_currency.StateKey.{Address}
use Sorting.{bytes_lt, sort_by}

-- `uint` is a word of 64 bits.
abbrev pub uint_mod : ℕ
uint_mod = 2 ^ 64

abbrev pub max_key_in_keys : ℕ
max_key_in_keys = 10

pub record Key (m : Mitum) : Type 0 where
  pub k : m.Publickey
  pub w : ℕ

-- The fields of `Keys`; `sort.Slice` in `Bytes` and `Equal` reorders the slice in place, which
-- shows in nothing but the order of `Keys()`.
pub record Keys (m : Mitum) : Type 0 where
  pub h : m.Hash
  pub keys : List (Key m)
  pub threshold : ℕ

-- The map `m` of `IsValid` holds the key texts that were met.
unfoldable pub contains_text : Bytes → List Bytes → Bool
contains_text t [] = false
contains_text t (s ∷ ss) = bytes_eq s t || contains_text t ss

-- `strings.TrimSpace` leaves nothing exactly of a text of white space (of ASCII).
unfoldable pub is_blank : Bytes → Bool
is_blank [] = true
is_blank (c ∷ cs) = (eqb c 32 || (ltb 8 c && ltb c 14)) && is_blank cs

unfoldable pub address_is_valid : (m : Mitum) → Address → Result (Unit {0})
unfolding is_blank
address_is_valid m ca = guard (not (is_blank (m.hinted_address ca))) (plain invalid)

module _ {m : Mitum} where
  open m use {
    Publickey, publickey_equal, publickey_is_valid, publickey_bytes, publickey_string,
    hash_is_valid, hash_equal, hash_string, sha256, uint_to_bytes, hinted_address,
  }

  unfoldable pub key_is_valid : Key m → Result (Unit {0})
  key_is_valid ky =
      if ltb ky.w 1 || ltb 100 ky.w
      then err (plain invalid)
      else guard (publickey_is_valid ky.k) (plain external)

  unfoldable pub key_bytes : Key m → Bytes
  key_bytes ky = publickey_string ky.k ++ uint_to_bytes ky.w

  unfoldable pub key_equal : Key m → Key m → Bool
  key_equal a b = eqb a.w b.w && publickey_equal a.k b.k

  -- `bytes.Compare(ks.keys[i].Key().Bytes(), ks.keys[j].Key().Bytes()) < 0`
  unfoldable pub sort_keys : List (Key m) → List (Key m)
  unfolding sort_by
  sort_keys = sort_by (λ a b. bytes_lt (publickey_bytes a.k) (publickey_bytes b.k))

  unfoldable pub concat_keys : List (Key m) → Bytes
  concat_keys [] = []
  concat_keys (ky ∷ kys) = key_bytes ky ++ concat_keys kys

  unfoldable pub keys_bytes : List (Key m) → ℕ → Bytes
  unfolding concat_keys key_bytes sort_keys
  keys_bytes kys threshold = concat_keys (sort_keys kys) ++ uint_to_bytes threshold

  unfoldable pub generate_hash : List (Key m) → ℕ → m.Hash
  unfolding keys_bytes
  generate_hash kys threshold = sha256 (keys_bytes kys threshold)

  unfoldable pub check_keys : List Bytes → List (Key m) → Result (Unit {0})
  check_keys founds [] = ok tt
  check_keys founds (ky ∷ kys) =
      let rest = check_keys (publickey_string ky.k ∷ founds) kys in
      (do
        key_is_valid ky
        guard (not (contains_text (publickey_string ky.k) founds)) (plain duplicated)
        rest)

  unfoldable pub total_weight : ℕ → List (Key m) → ℕ
  total_weight sum [] = sum
  total_weight sum (ky ∷ kys) = total_weight ((sum + ky.w) % uint_mod) kys

  unfoldable pub keys_is_valid : Keys m → Result (Unit {0})
  keys_is_valid ks = do
    guard (not (ltb ks.threshold 1 || ltb 100 ks.threshold)) (plain invalid)
    guard (hash_is_valid ks.h) (plain external)
    guard (not (ltb (length ks.keys) 1)) (plain invalid)
    guard (not (ltb max_key_in_keys (length ks.keys))) (plain invalid)
    check_keys [] ks.keys
    guard (not (ltb (total_weight 0 ks.keys) ks.threshold)) (plain invalid)
    guard (hash_equal ks.h (generate_hash ks.keys ks.threshold)) (plain invalid)

  -- `NewKeys`
  unfoldable pub new_keys : List (Key m) → ℕ → Result (Keys m)
  new_keys kys threshold =
      let ks : Keys m = record {
        h = generate_hash kys threshold;
        keys = kys;
        threshold = threshold;
      } in
      keys_is_valid ks >> ok ks

  -- `Keys.Key`
  unfoldable pub find_key : Publickey → List (Key m) → Option (Key m)
  find_key k [] = none
  find_key k (ky ∷ kys) = if publickey_equal ky.k k then some ky else find_key k kys

  -- The last loop of `Equal`, over slices of one length.
  unfoldable pub equal_pointwise : List (Key m) → List (Key m) → Bool
  equal_pointwise [] _ = true
  equal_pointwise (a ∷ kys) [] = true
  equal_pointwise (a ∷ kys) (b ∷ kys') = key_equal a b && equal_pointwise kys kys'

  unfoldable pub keys_equal : Keys m → Keys m → Bool
  unfolding equal_pointwise sort_keys key_equal
  keys_equal ks b =
      eqb ks.threshold b.threshold
      && (eqb (length ks.keys) (length b.keys)
          && equal_pointwise (sort_keys ks.keys) (sort_keys b.keys))

  -- The loop of `checkThreshold`; a fact sign enters by its signer.
  unfoldable pub sum_weights : ℕ → List Publickey → List (Key m) → Result ℕ
  sum_weights sum [] kys = ok sum
  sum_weights sum (s ∷ fs) kys = elim (find_key s kys) [
    | some ky ↦ sum_weights ((sum + ky.w) % uint_mod) fs kys
    | none ↦ err (plain unknown_key)
  ]

  unfoldable pub check_threshold : List Publickey → Keys m → Result (Unit {0})
  check_threshold fs ks = do
    sum ← sum_weights 0 fs ks.keys
    guard (not (ltb sum ks.threshold)) (plain not_enough_weight)

  unfoldable pub new_address_from_keys : Keys m → Result Address
  new_address_from_keys ks = do
    keys_is_valid ks
    address_is_valid m (hash_string ks.h)
    ok (hash_string ks.h)

pub record Account (m : Mitum) : Type 0 where
  pub hash : m.Hash
  pub address : Address
  pub keys : Keys m

module _ {m : Mitum} where
  open m use {sha256, hinted_address}

  -- `Address.Bytes` and `Keys.Bytes`
  unfoldable pub account_bytes : Address → Keys m → Bytes
  account_bytes a ks = hinted_address a ++ keys_bytes ks.keys ks.threshold

  unfoldable pub new_account : Address → Keys m → Result (Account m)
  new_account a ks = do
    address_is_valid m a
    keys_is_valid ks
    ok (record { hash = sha256 (account_bytes a ks); address = a; keys = ks })

  unfoldable pub new_account_from_keys : Keys m → Result (Account m)
  unfolding new_account
  new_account_from_keys ks = do a ← new_address_from_keys ks; new_account a ks

  -- `SetKeys` keeps the address and the hash.
  unfoldable pub set_keys : Account m → Keys m → Result (Account m)
  set_keys ac ks = do keys_is_valid ks; ok (record ac { keys = ks })
