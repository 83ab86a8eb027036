-- ===== src/Transfers/Facts.antt =====
-- currency/transfers.go and currency/transfers_item.go: the bytes, the hash and the validity of the
-- facts of transfers.
use mitum_currency.Prelude.{
  ℕ, not, List, [], ◌∷◌, ◌++◌, ltb, length, Result, ok, plain, invalid, duplicated, external, guard,
  ◌>>=◌, ◌>>◌,
}
use mitum_currency.Prelude.Bytes.{Bytes, bytes_eq}
use mitum_currency.Mitum.{Mitum}
use mitum_currency.StateKey.{Address, state_address_key_prefix}
use mitum_currency.Keys.{address_is_valid, contains_text}
use mitum_currency.Items.{amounts_bytes, amounts_are_valid, kind_is_valid}
use mitum_currency.Transfers.{TransfersItem, TransfersFact}

-- `MaxTransferItems`
abbrev pub max_transfer_items : ℕ
max_transfer_items = 10

unfoldable pub item_bytes : (m : Mitum) → TransfersItem → Result Bytes
unfolding amounts_bytes
item_bytes m it = do b ← amounts_bytes it.amounts; ok (m.hinted_address it.receiver ++ b)

unfoldable pub items_bytes : (m : Mitum) → List TransfersItem → Result Bytes
unfolding item_bytes
items_bytes m [] = ok []
items_bytes m (it ∷ items) = do b ← item_bytes m it; bs ← items_bytes m items; ok (b ++ bs)

unfoldable pub fact_bytes : (m : Mitum) → Bytes → Address → List TransfersItem → Result Bytes
unfolding items_bytes
fact_bytes m token sender items = do
  b ← items_bytes m items
  ok (token ++ (m.hinted_address sender ++ b))

unfoldable pub generate_hash : (m : Mitum) → Bytes → Address → List TransfersItem → Result m.Hash
unfolding fact_bytes
generate_hash m token sender items = do b ← fact_bytes m token sender items; ok (m.sha256 b)

-- `NewTransfersFact`
unfoldable pub new_fact :
    {m : Mitum} → Bytes → Address → List TransfersItem → Result (TransfersFact m)
unfolding generate_hash
new_fact {m} token sender items = do
  h ← generate_hash m token sender items
  ok (record { h = h; token = token; sender = sender; items = items })

unfoldable pub item_is_valid : Mitum → TransfersItem → Result (Unit {0})
unfolding amounts_are_valid kind_is_valid
item_is_valid m it = do
  address_is_valid m it.receiver
  amounts_are_valid it.amounts
  kind_is_valid it.kind it.amounts

-- The loop over the items; `founds` are the receivers that it has met.
unfoldable pub check_items : Mitum → Address → List Bytes → List TransfersItem → Result (Unit {0})
unfolding item_is_valid
check_items m sender founds [] = ok tt
check_items m sender founds (it ∷ items) =
    let rest = check_items m sender (state_address_key_prefix it.receiver ∷ founds) items in
    (do
      item_is_valid m it
      guard (not (contains_text (state_address_key_prefix it.receiver) founds)) (plain duplicated)
      guard (not (bytes_eq sender it.receiver)) (plain invalid)
      rest)

unfoldable pub fact_is_valid : {m : Mitum} → TransfersFact m → Result (Unit {0})
unfolding check_items generate_hash
fact_is_valid {m} fact = do
  guard (not (ltb (length fact.token) 1)) (plain invalid)
  guard (not (ltb (length fact.items) 1)) (plain invalid)
  guard (not (ltb max_transfer_items (length fact.items))) (plain invalid)
  guard (m.hash_is_valid fact.h) (plain external)
  address_is_valid m fact.sender
  check_items m fact.sender [] fact.items
  h ← generate_hash m fact.token fact.sender fact.items
  guard (m.hash_equal fact.h h) (plain invalid)

-- `Addresses`: the receivers, and the sender last.
unfoldable pub addresses : {m : Mitum} → TransfersFact m → List Address
addresses fact = receivers fact.items
  where
    receivers : List TransfersItem → List Address
    receivers [] = fact.sender ∷ []
    receivers (it ∷ items) = it.receiver ∷ receivers items
