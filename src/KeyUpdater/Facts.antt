-- ===== src/KeyUpdater/Facts.antt =====
-- currency/keyupdater.go: the bytes, the hash and the validity of the facts of new keys.
use mitum_currency.Prelude.{
  not, List, ◌++◌, ltb, length, Result, plain, invalid, external, guard, ◌>>◌, [], ◌∷◌,
}
use mitum_currency.Prelude.Bytes.{Bytes}
use mitum_currency.Mitum.{Mitum}
use mitum_currency.CurrencyId
use mitum_currency.CurrencyId.{CurrencyId}
use mitum_currency.StateKey.{Address}
use mitum_currency.Keys.{Keys, keys_bytes, keys_is_valid, address_is_valid}
use mitum_currency.KeyUpdater.{KeyUpdaterFact}

module _ {m : Mitum} where
  unfoldable pub fact_bytes : Bytes → Address → Keys m → CurrencyId → Bytes
  fact_bytes token target ks cid =
      token ++ (m.hinted_address target ++ (keys_bytes ks.keys ks.threshold ++ cid))

  unfoldable pub generate_hash : Bytes → Address → Keys m → CurrencyId → m.Hash
  unfolding fact_bytes
  generate_hash token target ks cid = m.sha256 (fact_bytes token target ks cid)

  -- `NewKeyUpdaterFact`
  unfoldable pub new_fact : Bytes → Address → Keys m → CurrencyId → KeyUpdaterFact m
  unfolding generate_hash
  new_fact token target ks cid = record {
    h = generate_hash token target ks cid;
    token = token;
    target = target;
    keys = ks;
    currency = cid;
  }

  unfoldable pub fact_is_valid : KeyUpdaterFact m → Result (Unit {0})
  unfolding generate_hash
  fact_is_valid fact = do
    guard (not (ltb (length fact.token) 1)) (plain invalid)
    guard (m.hash_is_valid fact.h) (plain external)
    address_is_valid m fact.target
    keys_is_valid fact.keys
    CurrencyId.is_valid fact.currency
    guard (m.hash_equal fact.h (generate_hash fact.token fact.target fact.keys fact.currency))
        (plain invalid)

  -- `Addresses`
  unfoldable pub addresses : KeyUpdaterFact m → List Address
  addresses fact = fact.target ∷ []
