-- ===== src/Digest/Session.antt =====
-- digest/block_session.go and digest/digest.go: the documents of a block, and their writing.
use mitum_currency.Prelude.{
  ℕ, zero, suc, ◌+◌, ◌-◌, ◌*◌, panic, ◌/◌, ◌%◌, Bool, false, not, Option, none, some, List, [], ◌∷◌,
  map, ltb, leb, eqb, length, Result, ok, err, plain, not_found, wrong_value, external, guard,
  ◌>>=◌, ◌>>◌, if◌then◌else◌,
}
use mitum_currency.Prelude.Int.{ℤ}
use mitum_currency.Prelude.Slices.{take, slice}
use mitum_currency.Prelude.Bytes.{Bytes, bytes_eq_instance}
use mitum_currency.Prelude.Map.{Map, lookup, insert}
use mitum_currency.Mitum.{Mitum}
use mitum_currency.StateKey.{
  Address, state_address_key_prefix, is_state_account_key, is_state_balance_key, balance_suffix,
}
use mitum_currency.State.{StateApi, plain_state, load_state_account_value, state_balance_value}
use mitum_currency.Digest.Driver.{DigestApi, Driver}
use mitum_currency.Digest.Database.{
  AccountDoc, BalanceDoc, OperationDoc, Tables, Database, reopen, clean_by_height, set_last_block,
}

-- `bulkWriteLimit`
abbrev pub bulk_write_limit : ℕ
bulk_write_limit = 500

-- A node of the tree of operations: whether the operation is in the states, and why not.
pub record Node {m : Mitum} {api : StateApi m} (dig : DigestApi api) : Type 0 where
  pub fact : Bytes
  pub in_state : Bool
  pub reason : Option dig.Reason

-- What a session reads of a block.
pub record Block {m : Mitum} {api : StateApi m} (dig : DigestApi api) : Type 0 where
  pub height : ℤ
  pub operations_tree : List (Node dig)
  pub operations : List dig.Operation
  pub states : List api.Base

-- The models that a session holds.
pub record Models {m : Mitum} {api : StateApi m} (dig : DigestApi api) : Type 0 where
  pub operation_models : List (OperationDoc dig)
  pub account_models : List (AccountDoc m)
  pub balance_models : List (BalanceDoc api)

module _ {m : Mitum} {api : StateApi m} (dig : DigestApi api) where
  -- `prepareOperationsTree`
  unfoldable pub nodes_of : Map Bytes (Node dig) → List (Node dig) → Map Bytes (Node dig)
  nodes_of nodes [] = nodes
  nodes_of nodes (n ∷ ns) = nodes_of (insert n.fact n nodes) ns

  -- The addresses of `NewOperationDoc`
  unfoldable pub doc_addresses : Option (Result (List Address)) → Result (List Bytes)
  doc_addresses none = ok []
  doc_addresses (some found) = do as' ← found; ok (map state_address_key_prefix as')

  -- `NewOperationDoc`
  unfoldable pub new_operation_doc :
      dig.Operation → ℤ → Bool → Option dig.Reason → ℕ → Result (OperationDoc dig)
  unfolding doc_addresses
  new_operation_doc op h in_state reason index = do
    as' ← doc_addresses (dig.addresses op)
    ok (record {
      op = op;
      addresses = as';
      fact = dig.fact_hash op;
      height = h;
      index = index;
      in_state = in_state;
      reason = reason;
    })

  -- The loop of `prepareOperations`, from the operation of index `i` on.
  unfoldable pub operation_docs :
      Map Bytes (Node dig) → ℤ → ℕ → List dig.Operation → Result (List (OperationDoc dig))
  unfolding new_operation_doc
  operation_docs nodes h i [] = ok []
  operation_docs nodes h i (op ∷ ops) = do
    n ← elim (lookup (dig.fact_hash op) nodes) [ none ↦ err (plain not_found) | some n ↦ ok n ]
    doc ← new_operation_doc op h n.in_state n.reason i
    docs ← operation_docs nodes h (i + 1) ops
    ok (doc ∷ docs)

  -- `handleAccountState`, with `NewAccountValue` and `NewAccountDoc`
  unfoldable pub account_doc : api.Base → Result (AccountDoc m)
  unfolding load_state_account_value
  account_doc st = do
    guard (is_state_account_key (dig.key st)) (plain wrong_value)
    ac ← load_state_account_value {api = api} (plain_state st)
    ok (record {
      address = state_address_key_prefix ac.address;
      height = dig.height st;
      value = record {
        ac = ac;
        balance = [];
        height = dig.height st;
        previous_height = dig.previous_height st;
      };
    })

  -- `handleBalanceState`, with `NewBalanceDoc`; the address is cut out of the key.
  unfoldable pub balance_doc : api.Base → Result (BalanceDoc api)
  unfolding state_balance_value
  balance_doc st = do
    am ← state_balance_value {api = api} (plain_state st)
    guard (leb (length balance_suffix + length am.cid + 1) (length (dig.key st))) panic
    ok (record {
      address = take (length (dig.key st) - length balance_suffix - length am.cid - 1) (dig.key st);
      currency = am.cid;
      height = dig.height st;
      st = st;
    })

  -- The loop of `prepareAccounts`.
  unfoldable pub state_docs : List api.Base → Result (List (AccountDoc m) × List (BalanceDoc api))
  unfolding account_doc balance_doc
  state_docs [] = ok ([], [])
  state_docs (st ∷ sts) =
      let rest = state_docs sts in
      if is_state_account_key (dig.key st)
      then (do doc ← account_doc st; docs ← rest; ok (doc ∷ docs.0, docs.1))
      else if is_state_balance_key (dig.key st)
      then (do doc ← balance_doc st; docs ← rest; ok (docs.0, doc ∷ docs.1))
      else rest

  -- `Prepare`
  unfoldable pub prepare : Block dig → Result (Models dig)
  unfolding nodes_of operation_docs state_docs
  prepare blk = do
    ops ← operation_docs (nodes_of [] blk.operations_tree) blk.height 0 blk.operations
    docs ← state_docs blk.states
    ok (record { operation_models = ops; account_models = docs.0; balance_models = docs.1 })

module _ (mongo : Driver) {D : Type 0} where
  -- `writeModelsChunk`
  unfoldable pub write_chunk : List D → mongo.Collection D → Result (mongo.Collection D)
  write_chunk ds col = do
    r ← mongo.bulk_write false ds col
    guard (not (ltb r.1 1)) (plain external)
    ok r.0

  -- The loop of `writeModels`: `z` chunks from the one of index `i` on.
  unfoldable pub write_chunks : ℕ → ℕ → List D → mongo.Collection D → Result (mongo.Collection D)
  unfolding write_chunk
  write_chunks zero i ds col = ok col
  write_chunks (suc z) i ds col =
      let s = i * bulk_write_limit in
      let e = if ltb (length ds) (s + bulk_write_limit) then length ds else s + bulk_write_limit in
      do written ← write_chunk (slice s e ds) col; write_chunks z (i + 1) ds written

  unfoldable pub write_models : List D → mongo.Collection D → Result (mongo.Collection D)
  unfolding write_chunk write_chunks
  write_models ds col =
      let n = length ds in
      let z =
        if eqb (n % bulk_write_limit) 0 then n / bulk_write_limit else n / bulk_write_limit + 1 in
      if ltb n 1
      then ok col
      else if leb n bulk_write_limit
      then write_chunk ds col
      else write_chunks z 0 ds col

module _ {m : Mitum} {api : StateApi m} (dig : DigestApi api) (mongo : Driver) where
  -- `Commit`, with the database of the session
  unfoldable pub commit : ℤ → Models dig → Database → Tables dig mongo → Result (Tables dig mongo)
  unfolding clean_by_height write_models
  commit h models st t = do
    cleaned ← clean_by_height dig mongo h st t
    os ← write_models mongo models.operation_models cleaned.1.operations
    as' ← write_models mongo models.account_models cleaned.1.accounts
    bs ← write_models mongo models.balance_models cleaned.1.balances
    ok (record cleaned.1 { operations = os; accounts = as'; balances = bs })

  -- `DigestBlock`
  unfoldable pub digest_block :
      Block dig → Database → Tables dig mongo → Result (Database × Tables dig mongo)
  unfolding reopen prepare commit set_last_block
  digest_block blk st t = do
    nst ← reopen dig mongo st
    models ← prepare dig blk
    written ← commit blk.height models nst t
    set_last_block dig mongo blk.height st written
