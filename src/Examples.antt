-- ===== src/Examples.antt =====
-- A small network on which the tests run: texts for keys and hashes, one currency with a fixed fee,
-- and a database with the accounts and balances of two holders.
use mitum_currency.Prelude.{
  ℕ, Bool, true, false, Option, none, some, [], ◌∷◌, ◌++◌, Result, ok, ◌≡◌, subst,
}
use mitum_currency.Prelude.Int.{pos}
use mitum_currency.Prelude.Bytes.{Bytes, bytes, bytes_eq, bytes_eq_instance}
use mitum_currency.Prelude.Map.{Map, lookup}
use mitum_currency.Mitum.{Mitum}
use mitum_currency.CurrencyId.{CurrencyId}
use mitum_currency.StateKey.{
  Address, state_key_account, state_key_balance, state_key_currency_design,
}
use mitum_currency.Big.{int}
use mitum_currency.Keys.{Keys, Account}
use mitum_currency.Feeer.{fixed_feeer}
use mitum_currency.Design.{Amount, CurrencyDesign}
use mitum_currency.State.{StateApi, State, Value, account_value, amount_value, plain_state}
use mitum_currency.Pool.{CurrencyPool}
use mitum_currency.Transfers.{Transfers}
use mitum_currency.Items.{multi_amounts, single_amount}
use mitum_currency.CreateAccounts.{CreateAccounts}
use mitum_currency.Currencies.Minting.{ReadsPlainDesigns}
use mitum_currency.Emission.Deltas.{ReadsFresh, ReadsPlainAccounts, IsPlain}

abbrev pub net : Mitum
net = record {
  Publickey = Bytes;
  publickey_equal = bytes_eq;
  publickey_is_valid = λ k. true;
  publickey_bytes = λ k. k;
  publickey_string = λ k. k;
  Hash = Bytes;
  hash_is_valid = λ h. true;
  hash_equal = bytes_eq;
  hash_string = λ h. h;
  sha256 = λ b. b;
  uint_to_bytes = λ n. n ∷ [];
  hinted_address = λ a. a ++ bytes ":mca";
  float_bytes = λ r. [];
}

-- A state is its value.
abbrev pub api : StateApi net
api = record {
  Base = Option (Value net);
  value = λ b. b;
  set_value = λ b v. ok (some v);
  value-set_value = λ s t v e. cc;
}

abbrev pub mcc : CurrencyId
mcc = bytes "MCC"

abbrev pub amount_of : ℕ → Amount
amount_of n = record { big = int (pos n); cid = mcc }

-- The address of an account with one key of full weight is the text that its hash is.
abbrev pub keys_of : Bytes → Keys net
keys_of k = record {
  h = (k ++ (100 ∷ [])) ++ (100 ∷ []);
  keys = record { k = k; w = 100 } ∷ [];
  threshold = 100;
}

abbrev pub address_of : Bytes → Address
address_of k = (k ++ (100 ∷ [])) ++ (100 ∷ [])

abbrev pub account_of : Bytes → Account net
account_of k = record { hash = k; address = address_of k; keys = keys_of k }

abbrev pub ann : Bytes
ann = bytes "ann"

abbrev pub bob : Bytes
bob = bytes "bob"

abbrev pub eve : Bytes
eve = bytes "eve"

abbrev pub pool_design : CurrencyDesign
pool_design = record {
  amount = amount_of 1000;
  genesis_account = some (address_of ann);
  policy = record {
    new_account_min_balance = int (pos 5);
    feeer = fixed_feeer (address_of bob) (int (pos 2));
  };
}

abbrev pub pool : CurrencyPool api
pool = record { demap = (mcc, pool_design) ∷ []; stsmap = []; cids = mcc ∷ [] }

abbrev pub database : Map Bytes (Value net)
database =
    (state_key_account (address_of ann), account_value (account_of ann))
    ∷ (state_key_account (address_of bob), account_value (account_of bob))
    ∷ (state_key_balance (address_of ann) mcc, amount_value (amount_of 100))
    ∷ (state_key_balance (address_of bob) mcc, amount_value (amount_of 7))
    ∷ []

abbrev pub read : Option (Value net) → Result (State api × Bool)
read none = ok (plain_state none, false)
read (some v) = ok (plain_state (some v), true)

abbrev pub get_state : Bytes → Result (State api × Bool)
get_state k = read (lookup k database)

read-IsPlain :
    (o : Option (Value net)) {st : State api} {b : Bool} → read o ≡ ok (st, b) → IsPlain st
read-IsPlain none {st} {b} e = let s : plain_state none ≡ st = cc in subst IsPlain s tt
read-IsPlain (some v) {st} {b} e = let s : plain_state (some v) ≡ st = cc in subst IsPlain s tt

pub get_state-ReadsFresh : ReadsFresh get_state
get_state-ReadsFresh a cid st b e =
    absurd (read-IsPlain (lookup (state_key_balance a cid) database) e)

pub get_state-ReadsPlainAccounts : ReadsPlainAccounts get_state
get_state-ReadsPlainAccounts a st b e = read-IsPlain (lookup (state_key_account a) database) e

pub get_state-ReadsPlainDesigns : ReadsPlainDesigns get_state
get_state-ReadsPlainDesigns cid st b e =
    read-IsPlain (lookup (state_key_currency_design cid) database) e

-- A transfer, and an operation that opens an account.
abbrev pub ann_to_bob : Transfers net
ann_to_bob = record {
  fact = record {
    h = [];
    token = 1 ∷ [];
    sender = address_of ann;
    items =
        record { kind = multi_amounts; receiver = address_of bob; amounts = amount_of 30 ∷ [] }
        ∷ [];
  };
  signs = ann ∷ [];
  memo = [];
}

abbrev pub eve_opens : CreateAccounts net
eve_opens = record {
  fact = record {
    h = [];
    token = 1 ∷ [];
    sender = address_of ann;
    items = record { kind = single_amount; keys = keys_of eve; amounts = amount_of 30 ∷ [] } ∷ [];
  };
  signs = ann ∷ [];
  memo = [];
}
