-- ===== src/CreateAccounts/Facts.antt =====
-- currency/create_accounts.go and currency/create_accounts_item.go: the bytes, the hash and the
-- validity of the facts of new accounts.
use mitum_currency.Prelude.{
  ℕ, not, List, [], ◌∷◌, ◌++◌, ltb, length, Result, ok, plain, invalid, duplicated, external, guard,
  ◌>>=◌, ◌>>◌,
}
use mitum_currency.Prelude.Bytes.{Bytes, bytes_eq}
use mitum_currency.Mitum.{Mitum}
use mitum_currency.StateKey.{Address}
use mitum_currency.Keys.{
  keys_bytes, keys_is_valid, new_address_from_keys, address_is_valid, contains_text,
}
use mitum_currency.Items.{amounts_bytes, amounts_are_valid, kind_is_valid}
use mitum_currency.CreateAccounts.{CreateAccountsItem, CreateAccountsFact, targets}

-- `MaxCreateAccountsItems`
abbrev pub max_create_accounts_items : ℕ
max_create_accounts_items = 10

module _ {m : Mitum} where
  unfoldable pub item_bytes : CreateAccountsItem m → Result Bytes
  item_bytes it = do
    b ← amounts_bytes it.amounts
    ok (keys_bytes it.keys.keys it.keys.threshold ++ b)

  unfoldable pub items_bytes : List (CreateAccountsItem m) → Result Bytes
  unfolding item_bytes
  items_bytes [] = ok []
  items_bytes (it ∷ items) = do b ← item_bytes it; bs ← items_bytes items; ok (b ++ bs)

  unfoldable pub fact_bytes : Bytes → Address → List (CreateAccountsItem m) → Result Bytes
  unfolding items_bytes
  fact_bytes token sender items = do
    b ← items_bytes items
    ok (token ++ (m.hinted_address sender ++ b))

  unfoldable pub generate_hash : Bytes → Address → List (CreateAccountsItem m) → Result m.Hash
  unfolding fact_bytes
  generate_hash token sender items = do b ← fact_bytes token sender items; ok (m.sha256 b)

  -- `NewCreateAccountsFact`
  unfoldable pub new_fact :
      Bytes → Address → List (CreateAccountsItem m) → Result (CreateAccountsFact m)
  unfolding generate_hash
  new_fact token sender items = do
    h ← generate_hash token sender items
    ok (record { h = h; token = token; sender = sender; items = items })

  unfoldable pub item_is_valid : CreateAccountsItem m → Result (Unit {0})
  item_is_valid it = do
    keys_is_valid it.keys
    amounts_are_valid it.amounts
    kind_is_valid it.kind it.amounts

  -- The loop over the items; `founds` are the hashes of keys that it has met.
  unfoldable pub check_items :
      Address → List Bytes → List (CreateAccountsItem m) → Result (Unit {0})
  unfolding item_is_valid
  check_items sender founds [] = ok tt
  check_items sender founds (it ∷ items) =
      let rest = check_items sender (m.hash_string it.keys.h ∷ founds) items in
      (do
        item_is_valid it
        guard (not (contains_text (m.hash_string it.keys.h) founds)) (plain duplicated)
        a ← new_address_from_keys it.keys
        guard (not (bytes_eq sender a)) (plain invalid)
        rest)

  unfoldable pub fact_is_valid : CreateAccountsFact m → Result (Unit {0})
  unfolding check_items generate_hash
  fact_is_valid fact = do
    guard (not (ltb (length fact.token) 1)) (plain invalid)
    guard (not (ltb (length fact.items) 1)) (plain invalid)
    guard (not (ltb max_create_accounts_items (length fact.items))) (plain invalid)
    guard (m.hash_is_valid fact.h) (plain external)
    address_is_valid m fact.sender
    check_items fact.sender [] fact.items
    h ← generate_hash fact.token fact.sender fact.items
    guard (m.hash_equal fact.h h) (plain invalid)

  -- `Addresses`: the targets, and the sender last.
  unfoldable pub addresses : CreateAccountsFact m → Result (List Address)
  addresses fact = do as' ← targets fact.items; ok (as' ++ (fact.sender ∷ []))
