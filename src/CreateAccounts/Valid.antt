-- ===== src/CreateAccounts/Valid.antt =====
-- currency/create_accounts.go: which facts of new accounts are valid.
use mitum_currency.Prelude.{
  true, false, not, List, [], ◌∷◌, ltb, length, ok, ◌≡◌, ◌≢◌, ◌≤◌, ◌↔◌, arith, map, All, guard,
  plain, invalid, external, with_ok, guard-eq-ok,
}
use mitum_currency.Prelude.Bytes.{Bytes, bytes_eq_iff}
use mitum_currency.Mitum.{Mitum}
use mitum_currency.StateKey.{Address}
use mitum_currency.Keys.{keys_is_valid, new_address_from_keys, address_is_valid}
use mitum_currency.Keys.Distinct.{AllNew, AllNew-distinct, AreDistinct}
use mitum_currency.Items.Valid.{AreItemAmounts, item_amounts, item_amounts_iff}
use mitum_currency.CreateAccounts.{CreateAccountsItem, CreateAccountsFact}
use mitum_currency.CreateAccounts.Facts.{
  item_is_valid, check_items, fact_is_valid, generate_hash, max_create_accounts_items,
}

-- An item whose keys are those of a proper account other than the sender's.
abbrev pub IsItem : {m : Mitum} → Address → CreateAccountsItem m → Type 0
IsItem {m} sender it =
    (keys_is_valid it.keys ≡ ok tt)
    × (address_is_valid m (m.hash_string it.keys.h) ≡ ok tt)
    × AreItemAmounts it.kind it.amounts
    × (sender ≢ m.hash_string it.keys.h)

abbrev key_hashes : {m : Mitum} → List (CreateAccountsItem m) → List Bytes
key_hashes {m} items = map (λ it. m.hash_string it.keys.h) items

check_items_iff :
    {m : Mitum} (sender : Address) (founds : List Bytes) (items : List (CreateAccountsItem m))
    → (check_items sender founds items ≡ ok tt)
      ↔ (All (IsItem sender) items × AllNew founds (key_hashes items))
unfolding check_items item_is_valid item_amounts new_address_from_keys
check_items_iff sender founds [] = ground arith
check_items_iff {m} sender founds (it ∷ items) = ground (
  arith,
  item_amounts_iff it.kind it.amounts,
  bytes_eq_iff sender (m.hash_string it.keys.h),
  check_items_iff sender (m.hash_string it.keys.h ∷ founds) items,
)

-- A fact of new accounts as the network takes it.
pub record IsCreateAccountsFact {m : Mitum} (fact : CreateAccountsFact m) : Type 0 where
  pub has_token : 1 ≤ length fact.token
  pub has_items : 1 ≤ length fact.items
  pub few_items : length fact.items ≤ 10
  pub valid_hash : m.hash_is_valid fact.h ≡ true
  pub valid_sender : address_is_valid m fact.sender ≡ ok tt
  pub valid_items : All (IsItem fact.sender) fact.items
  pub distinct_targets : AreDistinct (map (λ it. m.hash_string it.keys.h) fact.items)
  pub is_hash :
      (h : m.Hash) × (generate_hash fact.token fact.sender fact.items ≡ ok h)
      × (m.hash_equal fact.h h ≡ true)

module _ {m : Mitum} (fact : CreateAccountsFact m) where
  items_iff :
      (check_items fact.sender [] fact.items ≡ ok tt)
      ↔ (All (IsItem fact.sender) fact.items × AreDistinct (key_hashes fact.items))
  items_iff =
      let loop = check_items_iff fact.sender [] fact.items in
      let new = AllNew-distinct (key_hashes fact.items) in
      (λ e. ((loop.0 e).0, new.0 (loop.0 e).1), λ h. loop.1 (h.0, new.1 h.1))

  sound : fact_is_valid fact ≡ ok tt → IsCreateAccountsFact fact
  unfolding fact_is_valid
  sound e = with_ok (guard (not (ltb (length fact.token) 1)) (plain invalid)) _ e λ u₁ token r₁.
      with_ok (guard (not (ltb (length fact.items) 1)) (plain invalid)) _ r₁ λ u₂ some_items r₂.
        with_ok (guard (not (ltb max_create_accounts_items (length fact.items))) (plain invalid)) _
          r₂
          λ u₃ few r₃. with_ok (guard (m.hash_is_valid fact.h) (plain external)) _ r₃ λ u₄ hash r₄.
            with_ok (address_is_valid m fact.sender) _ r₄ λ u₅ sender r₅.
              with_ok (check_items fact.sender [] fact.items) _ r₅ λ u₆ items r₆.
                with_ok (generate_hash fact.token fact.sender fact.items) _ r₆ λ h made same.
                  let (each, distinct) = items_iff.0 items in
                  record {
                    has_token = ground (arith, guard-eq-ok _ _ token);
                    has_items = ground (arith, guard-eq-ok _ _ some_items);
                    few_items = ground (arith, guard-eq-ok _ _ few);
                    valid_hash = guard-eq-ok _ _ hash;
                    valid_sender = sender;
                    valid_items = each;
                    distinct_targets = distinct;
                    is_hash = (h, made, guard-eq-ok _ _ same);
                  }

  complete : IsCreateAccountsFact fact → fact_is_valid fact ≡ ok tt
  unfolding fact_is_valid
  complete v =
      let (h, made, same) = v.is_hash in
      let items = items_iff.1 (v.valid_items, v.distinct_targets) in
      let t : ltb (length fact.token) 1 ≡ false = let k = v.has_token in ground arith in
      let n : ltb (length fact.items) 1 ≡ false = let k = v.has_items in ground arith in
      let f : ltb max_create_accounts_items (length fact.items) ≡ false =
        let k = v.few_items in ground arith in
      rw (t, n, f, v.valid_hash, v.valid_sender, items, made, same)

  -- `IsValid` accepts a fact of new accounts exactly if its token is not empty, it has between one
  -- and ten items, its hash and its sender are valid, each item has valid keys whose address is
  -- valid and not the sender, and valid amounts (over zero, in distinct currencies, exactly one
  -- for a single-amount item, one to ten for a multi-amounts item, and at least one for a base
  -- item, which is what decoding gives), the keys have distinct hashes, and the hash of the fact
  -- is the one that its bytes have.
  pub IsCreateAccountsFact-iff : (fact_is_valid fact ≡ ok tt) ↔ IsCreateAccountsFact fact
  IsCreateAccountsFact-iff = (sound, complete)
