-- ===== src/Digest/Database.antt =====
-- digest/database.go: the database of digested blocks, and its cleaning.
use mitum_currency.Prelude.{
  ℕ, Bool, true, false, not, Option, none, some, List, Result, ok, plain, external, guard, ◌>>=◌,
  ◌>>◌,
}
use mitum_currency.Prelude.Int.{ℤ, pos, ◌+ℤ◌, ◌-ℤ◌, leb_ℤ}
use mitum_currency.Prelude.Bytes.{Bytes}
use mitum_currency.Mitum.{Mitum}
use mitum_currency.CurrencyId.{CurrencyId}
use mitum_currency.Keys.{Account}
use mitum_currency.Design.{Amount}
use mitum_currency.State.{StateApi}
use mitum_currency.Digest.Driver.{DigestApi, Driver}

-- digest/account_value.go
pub record AccountValue (m : Mitum) : Type 0 where
  pub ac : Account m
  pub balance : List Amount
  pub height : ℤ
  pub previous_height : ℤ

-- digest/doc_account.go, digest/doc_operation.go: the documents with the fields that are searched
pub record AccountDoc (m : Mitum) : Type 0 where
  pub address : Bytes
  pub height : ℤ
  pub value : AccountValue m

pub record BalanceDoc {m : Mitum} (api : StateApi m) : Type 0 where
  pub address : Bytes
  pub currency : CurrencyId
  pub height : ℤ
  pub st : api.Base

pub record OperationDoc {m : Mitum} {api : StateApi m} (dig : DigestApi api) : Type 0 where
  pub op : dig.Operation
  pub addresses : List Bytes
  pub fact : Bytes
  pub height : ℤ
  pub index : ℕ
  pub in_state : Bool
  pub reason : Option dig.Reason

-- What the database keeps, whoever has it open.
pub record Tables {m : Mitum} {api : StateApi m} (dig : DigestApi api) (mongo : Driver)
    : Type 0 where
  pub accounts : mongo.Collection (AccountDoc m)
  pub balances : mongo.Collection (BalanceDoc api)
  pub operations : mongo.Collection (OperationDoc dig)
  pub last_block : mongo.Info

-- A `Database`, without the tables that it stands for.
pub record Database : Type 0 where
  pub readonly : Bool
  pub last_block : ℤ

module _ {m : Mitum} {api : StateApi m} (dig : DigestApi api) (mongo : Driver) where
  -- `NewDatabase`
  abbrev pub new_database : Database
  new_database = record { readonly = false; last_block = dig.nil_height }

  -- `NewReadonlyDatabase`
  abbrev pub new_readonly_database : Database
  new_readonly_database = record { readonly = true; last_block = dig.nil_height }

  -- `New`: the same tables, opened again
  unfoldable pub reopen : Database → Result Database
  reopen st = do guard (not st.readonly) (plain external); ok new_database

  unfoldable pub load_last_block : Tables dig mongo → Result (Option ℤ)
  load_last_block t = do
    found ← mongo.info t.last_block
    elim found [ none ↦ ok none | some b ↦ do h ← dig.height_from_bytes b; ok (some h) ]

  -- `setLastBlock`
  unfoldable pub put_last_block :
      ℤ → Database → Tables dig mongo → Result (Database × Tables dig mongo)
  put_last_block h st t = do
    i ← mongo.set_info (dig.height_bytes h) t.last_block
    ok (record st { last_block = h }, record t { last_block = i })

  -- `SetLastBlock`
  unfoldable pub set_last_block :
      ℤ → Database → Tables dig mongo → Result (Database × Tables dig mongo)
  unfolding put_last_block
  set_last_block h st t = do
    guard (not st.readonly) (plain external)
    elim (leb_ℤ h st.last_block) [ true ↦ ok (st, t) | false ↦ put_last_block h st t ]

  -- `clean`
  unfoldable pub clean : Database → Tables dig mongo → Result (Database × Tables dig mongo)
  unfolding put_last_block
  clean st t = do
    as' ← mongo.drop t.accounts
    bs ← mongo.drop t.balances
    os ← mongo.drop t.operations
    put_last_block dig.nil_height st (record t { accounts = as'; balances = bs; operations = os })

  -- `cleanByHeight`
  unfoldable pub clean_by_height_unlocked :
      ℤ → Database → Tables dig mongo → Result (Database × Tables dig mongo)
  unfolding clean put_last_block
  clean_by_height_unlocked h st t = elim (leb_ℤ h (dig.pre_genesis_height +ℤ pos 1)) [
    | true ↦ clean st t
    | false ↦ do
      as' ← mongo.delete_from (λ d. d.height) h t.accounts
      bs ← mongo.delete_from (λ d. d.height) h t.balances
      os ← mongo.delete_from (λ d. d.height) h t.operations
      put_last_block (h -ℤ pos 1) st (record t { accounts = as'; balances = bs; operations = os })
  ]

  -- `Clean` and `CleanByHeight`
  unfoldable pub clean_all : Database → Tables dig mongo → Result (Database × Tables dig mongo)
  unfolding clean
  clean_all st t = guard (not st.readonly) (plain external) >> clean st t

  unfoldable pub clean_by_height :
      ℤ → Database → Tables dig mongo → Result (Database × Tables dig mongo)
  unfolding clean_by_height_unlocked
  clean_by_height h st t =
      guard (not st.readonly) (plain external) >> clean_by_height_unlocked h st t

  -- `Initialize`; the indexes that it makes are left out.
  unfoldable pub initialize : Database → Tables dig mongo → Result (Database × Tables dig mongo)
  unfolding load_last_block clean_by_height_unlocked
  initialize st t = do
    found ← load_last_block t
    elim found [
      | none ↦ ok (record st { last_block = dig.nil_height }, t)
      | some h ↦ elim st.readonly [
        | true ↦ ok (record st { last_block = h }, t)
        | false ↦ clean_by_height_unlocked (h +ℤ pos 1) (record st { last_block = h }) t
      ]
    ]
