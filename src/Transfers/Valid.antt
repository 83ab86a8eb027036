-- ===== src/Transfers/Valid.antt =====
-- currency/transfers.go: which facts of transfers are valid.
use mitum_currency.Prelude.{
  true, false, not, List, [], ◌∷◌, ◌++◌, ltb, length, ok, ◌≡◌, ◌≢◌, ◌≤◌, ◌↔◌, arith, map, All,
  guard, plain, invalid, external, with_ok, guard-eq-ok,
}
use mitum_currency.Prelude.Bytes.{Bytes, bytes, bytes_eq_iff}
use mathlib.Core.List.{append_cancel_right}
use mitum_currency.Mitum.{Mitum}
use mitum_currency.StateKey.{Address, address_type, state_address_key_prefix}
use mitum_currency.Keys.{address_is_valid}
use mitum_currency.Keys.Distinct.{AllNew, AllNew-distinct, AreDistinct, AreDistinct-map}
use mitum_currency.Items.Valid.{AreItemAmounts, item_amounts, item_amounts_iff}
use mitum_currency.Transfers.{TransfersItem, TransfersFact}
use mitum_currency.Transfers.Facts.{
  item_is_valid, check_items, fact_is_valid, generate_hash, max_transfer_items,
}

-- An item for a receiver that is not the sender.
abbrev pub IsItem : Mitum → Address → TransfersItem → Type 0
IsItem m sender it =
    (address_is_valid m it.receiver ≡ ok tt)
    × AreItemAmounts it.kind it.amounts
    × (sender ≢ it.receiver)

item_is_valid_iff :
    (m : Mitum) (it : TransfersItem)
    → (item_is_valid m it ≡ ok tt)
      ↔ ((address_is_valid m it.receiver ≡ ok tt) × AreItemAmounts it.kind it.amounts)
unfolding item_is_valid item_amounts
item_is_valid_iff m it = ground (arith, item_amounts_iff it.kind it.amounts)

abbrev receiver_keys : List TransfersItem → List Bytes
receiver_keys items = map (λ it. state_address_key_prefix it.receiver) items

check_items_iff :
    (m : Mitum) (sender : Address) (founds : List Bytes) (items : List TransfersItem)
    → (check_items m sender founds items ≡ ok tt)
      ↔ (All (IsItem m sender) items × AllNew founds (receiver_keys items))
unfolding check_items
check_items_iff m sender founds [] = ground arith
check_items_iff m sender founds (it ∷ items) = ground (
  arith,
  item_is_valid_iff m it,
  bytes_eq_iff sender it.receiver,
  check_items_iff m sender (state_address_key_prefix it.receiver ∷ founds) items,
)

abbrev receivers : List TransfersItem → List Address
receivers items = map (λ it. it.receiver) items

prefix-injective : (a b : Address) → state_address_key_prefix a ≡ state_address_key_prefix b → a ≡ b
unfolding state_address_key_prefix
prefix-injective a b e = append_cancel_right a b (bytes "-" ++ address_type) e

-- A fact of transfers as the network takes it.
pub record IsTransfersFact {m : Mitum} (fact : TransfersFact m) : Type 0 where
  pub has_token : 1 ≤ length fact.token
  pub has_items : 1 ≤ length fact.items
  pub few_items : length fact.items ≤ 10
  pub valid_hash : m.hash_is_valid fact.h ≡ true
  pub valid_sender : address_is_valid m fact.sender ≡ ok tt
  pub valid_items : All (IsItem m fact.sender) fact.items
  pub distinct_receivers : AreDistinct (map (λ it. it.receiver) fact.items)
  pub is_hash :
      (h : m.Hash) × (generate_hash m fact.token fact.sender fact.items ≡ ok h)
      × (m.hash_equal fact.h h ≡ true)

items_iff :
    {m : Mitum} (fact : TransfersFact m)
    → (check_items m fact.sender [] fact.items ≡ ok tt)
      ↔ (All (IsItem m fact.sender) fact.items × AreDistinct (receivers fact.items))
items_iff {m} fact =
    let loop = check_items_iff m fact.sender [] fact.items in
    let new = AllNew-distinct (receiver_keys fact.items) in
    let keys =
      AreDistinct-map (λ (it : TransfersItem). it.receiver) state_address_key_prefix
        prefix-injective fact.items in
    (λ e. ((loop.0 e).0, keys.0 (new.0 (loop.0 e).1)), λ h. loop.1 (h.0, new.1 (keys.1 h.1)))

sound : {m : Mitum} (fact : TransfersFact m) → fact_is_valid fact ≡ ok tt → IsTransfersFact fact
unfolding fact_is_valid
sound {m} fact e =
    with_ok (guard (not (ltb (length fact.token) 1)) (plain invalid)) _ e λ u₁ token r₁.
      with_ok (guard (not (ltb (length fact.items) 1)) (plain invalid)) _ r₁ λ u₂ some_items r₂.
        with_ok (guard (not (ltb max_transfer_items (length fact.items))) (plain invalid)) _ r₂
          λ u₃ few r₃. with_ok (guard (m.hash_is_valid fact.h) (plain external)) _ r₃ λ u₄ hash r₄.
            with_ok (address_is_valid m fact.sender) _ r₄ λ u₅ sender r₅.
              with_ok (check_items m fact.sender [] fact.items) _ r₅ λ u₆ items r₆.
                with_ok (generate_hash m fact.token fact.sender fact.items) _ r₆ λ h made same.
                  let (each, distinct) = (items_iff fact).0 items in
                  record {
                    has_token = ground (arith, guard-eq-ok _ _ token);
                    has_items = ground (arith, guard-eq-ok _ _ some_items);
                    few_items = ground (arith, guard-eq-ok _ _ few);
                    valid_hash = guard-eq-ok _ _ hash;
                    valid_sender = sender;
                    valid_items = each;
                    distinct_receivers = distinct;
                    is_hash = (h, made, guard-eq-ok _ _ same);
                  }

complete : {m : Mitum} (fact : TransfersFact m) → IsTransfersFact fact → fact_is_valid fact ≡ ok tt
unfolding fact_is_valid
complete {m} fact v =
    let (h, made, same) = v.is_hash in
    let items = (items_iff fact).1 (v.valid_items, v.distinct_receivers) in
    let t : ltb (length fact.token) 1 ≡ false = let k = v.has_token in ground arith in
    let n : ltb (length fact.items) 1 ≡ false = let k = v.has_items in ground arith in
    let f : ltb max_transfer_items (length fact.items) ≡ false =
      let k = v.few_items in ground arith in
    rw (t, n, f, v.valid_hash, v.valid_sender, items, made, same)

-- `IsValid` accepts a fact of transfers exactly if its token is not empty, it has between one and
-- ten items, its hash and its sender are valid, each item has a valid receiver other than the
-- sender and valid amounts (over zero, in distinct currencies, exactly one for a single-amount
-- item, one to ten for a multi-amounts item, and at least one for a base item, which is what
-- decoding gives), the receivers are distinct, and the hash is the one that its bytes have.
pub IsTransfersFact-iff :
    {m : Mitum} (fact : TransfersFact m) → (fact_is_valid fact ≡ ok tt) ↔ IsTransfersFact fact
IsTransfersFact-iff fact = (sound fact, complete fact)
