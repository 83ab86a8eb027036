-- ===== src/Operations.antt =====
-- currency/operation_processor.go: the processor of one block's operations. Its methods run under
-- its lock; `PreProcess` and `Process` of different operations may interleave, and what they share
-- is the record `OperationProcessor`.
pub mod Marks
pub mod Duplication
pub mod Accepted
pub mod Collecting
pub mod Conservation
pub mod Block
mod Tests
use mitum_currency.Prelude.{
  ℕ, Bool, true, false, not, Option, none, some, List, [], ◌∷◌, ◌++◌, Result, ok, err, plain,
  reason, panic, duplicated, external, ◌>>=◌, ◌>>◌, guard, to_reason, if◌then◌else◌, ltb, length,
  ◌&&◌,
}
use mitum_currency.Prelude.Bytes.{Bytes, bytes_eq_instance}
use mitum_currency.Prelude.Map.{Map, contains, insert, lookup_or}
use mitum_currency.Mitum.{Mitum}
use mitum_currency.CurrencyId.{CurrencyId}
use mitum_currency.StateKey.{Address}
use mitum_currency.Big
use mitum_currency.Big.{Big, zero_big, over_zero}
use mitum_currency.State.{StateApi, State, AmountState, plain_state, amount_state}
use mitum_currency.Pool.{CurrencyPool}
use mitum_currency.Transfers
use mitum_currency.Transfers.{Transfers, TransfersProcessor}
use mitum_currency.CreateAccounts
use mitum_currency.CreateAccounts.{CreateAccounts, CreateAccountsProcessor, targets}
use mitum_currency.KeyUpdater
use mitum_currency.KeyUpdater.{KeyUpdater, KeyUpdaterProcessor}
use mitum_currency.Currencies
use mitum_currency.Currencies.{
  CurrencyRegister, CurrencyPolicyUpdater, RegisterProcessor, PolicyProcessor,
}
use mitum_currency.FeeOperation
use mitum_currency.FeeOperation.{fee_amounts}

pub data DuplicationType : Type 0 where
  duplication_sender duplication_currency : DuplicationType

-- The operations that the processor knows, and any other one.
pub data Operation (m : Mitum) : Type 0 where
  transfers : Transfers m → Operation m
  create_accounts : CreateAccounts m → Operation m
  key_updater : KeyUpdater m → Operation m
  currency_register : CurrencyRegister m → Operation m
  currency_policy_updater : CurrencyPolicyUpdater m → Operation m
  other_operation : Operation m

-- What `PreProcess` returns: the processor of a known operation, or the operation itself.
pub data Prepared {m : Mitum} (api : StateApi m) : Type 0 where
  prepared_transfers : TransfersProcessor api → Prepared api
  prepared_accounts : CreateAccountsProcessor api → Prepared api
  prepared_keys : KeyUpdaterProcessor api → Prepared api
  prepared_register : RegisterProcessor api → Prepared api
  prepared_policy : PolicyProcessor api → Prepared api
  unprepared : Prepared api

-- The fields that change in a block. `amountPool` is never used, and `pool` belongs to mitum.
pub record OperationProcessor : Type 0 where
  pub fee : Map CurrencyId Big
  pub duplicated : Map Bytes DuplicationType
  pub duplicated_new_address : Map Bytes (Unit {0})

-- `New`
abbrev pub new_processor : OperationProcessor
new_processor = record { fee = []; duplicated = []; duplicated_new_address = [] }

-- What the processor is made with: the pool of currencies, the suffrage's keys and threshold, and
-- whether a processor is set for a known operation (`SetProcessor`).
pub record Setting {m : Mitum} (api : StateApi m) : Type 0 where
  pub cp : Option (CurrencyPool api)
  pub pubs : List m.Publickey
  pub threshold : ℕ
  pub is_set : Operation m → Bool

-- The two loops of `checkNewAddressDuplication`.
unfoldable pub any_known : Map Bytes (Unit {0}) → List Bytes → Bool
any_known known [] = false
any_known known (a ∷ rest) = if contains a known then true else any_known known rest

unfoldable pub mark_all : Map Bytes (Unit {0}) → List Bytes → Map Bytes (Unit {0})
mark_all known [] = known
mark_all known (a ∷ rest) = mark_all (insert a tt known) rest

unfoldable pub check_new_address_duplication :
    OperationProcessor → List Bytes → Result (Unit {0}) × OperationProcessor
unfolding any_known mark_all
check_new_address_duplication opr addresses =
    if any_known opr.duplicated_new_address addresses then (err (reason duplicated), opr) else (
      ok tt,
      record opr { duplicated_new_address = mark_all opr.duplicated_new_address addresses },
    )

-- `if len(newAddresses) > 0`
unfoldable pub check_new_addresses :
    OperationProcessor → List Bytes → Result (Unit {0}) × OperationProcessor
unfolding check_new_address_duplication
check_new_addresses opr [] = (ok tt, opr)
check_new_addresses opr (a ∷ rest) = check_new_address_duplication opr (a ∷ rest)

-- The end of `checkDuplication`, for what an operation is known by and the accounts that it opens.
-- The error is wrapped by `PreProcess`.
unfoldable pub check_marks :
    OperationProcessor
    → Bytes
    → DuplicationType
    → List Bytes
    → Result (Unit {0}) × OperationProcessor
unfolding check_new_addresses
check_marks opr [] didtype new_addresses = check_new_addresses opr new_addresses
check_marks opr (c ∷ cs) didtype new_addresses =
    if contains (c ∷ cs) opr.duplicated
    then (err (reason duplicated), opr)
    else check_new_addresses (record opr { duplicated = insert (c ∷ cs) didtype opr.duplicated })
        new_addresses

-- `as[i].String()`
unfoldable pub address_strings : Mitum → List Address → List Bytes
address_strings m [] = []
address_strings m (a ∷ rest) = m.hinted_address a ∷ address_strings m rest

-- The duplication check of `CreateAccounts`, for what `Targets` returns.
unfoldable pub check_targets :
    Mitum
    → OperationProcessor
    → Bytes
    → Result (List Address)
    → Result (Unit {0}) × OperationProcessor
unfolding check_marks address_strings
check_targets m opr did (err e) = (err (reason external), opr)
check_targets m opr did (ok as') = check_marks opr did duplication_sender (address_strings m as')

module _ {m : Mitum} where
  unfoldable pub check_duplication :
      OperationProcessor → Operation m → Result (Unit {0}) × OperationProcessor
  unfolding check_marks check_targets targets
  check_duplication opr (transfers t) =
      check_marks opr (m.hinted_address t.fact.sender) duplication_sender []
  check_duplication opr (create_accounts t) =
      check_targets m opr (m.hinted_address t.fact.sender) (targets t.fact.items)
  check_duplication opr (key_updater t) =
      check_marks opr (m.hinted_address t.fact.target) duplication_sender []
  check_duplication opr (currency_register t) =
      check_marks opr t.fact.currency.amount.cid duplication_currency []
  check_duplication opr (currency_policy_updater t) =
      check_marks opr t.fact.cid duplication_currency []
  check_duplication opr other_operation = (ok tt, opr)

  -- The second result of `getNewProcessor`.
  unfoldable pub is_known : Operation m → Bool
  is_known other_operation = false
  is_known (transfers t) = true
  is_known (create_accounts t) = true
  is_known (key_updater t) = true
  is_known (currency_register t) = true
  is_known (currency_policy_updater t) = true

module _ {m : Mitum} {api : StateApi m} where
  -- `getNewProcessor` and the `PreProcess` of the processor that it makes.
  unfoldable pub prepare :
      Setting api → (Bytes → Result (State api × Bool)) → Operation m → Result (Prepared api)
  prepare s get_state (transfers t) = do
    guard (s.is_set (transfers t)) (reason external)
    p ← Transfers.pre_process s.cp get_state t
    ok (prepared_transfers p)
  prepare s get_state (create_accounts t) = do
    guard (s.is_set (create_accounts t)) (reason external)
    p ← CreateAccounts.pre_process s.cp get_state t
    ok (prepared_accounts p)
  prepare s get_state (key_updater t) = do
    guard (s.is_set (key_updater t)) (reason external)
    p ← KeyUpdater.pre_process s.cp get_state t
    ok (prepared_keys p)
  prepare s get_state (currency_register t) = do
    guard (s.is_set (currency_register t)) (reason external)
    p ← Currencies.register_pre_process s.cp s.pubs s.threshold get_state t
    ok (prepared_register p)
  prepare s get_state (currency_policy_updater t) = do
    guard (s.is_set (currency_policy_updater t)) (reason external)
    p ← Currencies.policy_pre_process s.cp s.pubs s.threshold get_state t
    ok (prepared_policy p)
  prepare s get_state other_operation = ok unprepared

  unfoldable pub wrap_duplication :
      Prepared api
      → Result (Unit {0}) × OperationProcessor
      → Result (Prepared api) × OperationProcessor
  wrap_duplication p (ok u, opr) = (ok p, opr)
  wrap_duplication p (err e, opr) = (err (to_reason e), opr)

  -- The end of `PreProcess`: an operation that is not known is passed on unchecked.
  unfoldable pub mark_prepared :
      OperationProcessor → Operation m → Prepared api → Result (Prepared api) × OperationProcessor
  unfolding is_known wrap_duplication
  mark_prepared opr op p =
      if is_known op then wrap_duplication p (check_duplication opr op) else (ok p, opr)

  unfoldable pub mark_if_prepared :
      OperationProcessor
      → Operation m
      → Result (Prepared api)
      → Result (Prepared api) × OperationProcessor
  unfolding mark_prepared
  mark_if_prepared opr op (err e) = (err e, opr)
  mark_if_prepared opr op (ok p) = mark_prepared opr op p

  -- `PreProcess`. What was marked stays marked also after an error.
  unfoldable pub pre_process :
      Setting api
      → (Bytes → Result (State api × Bool))
      → OperationProcessor
      → Operation m
      → Result (Prepared api) × OperationProcessor
  unfolding prepare mark_if_prepared
  pre_process s get_state opr op = mark_if_prepared opr op (prepare s get_state op)

  -- The loop of `setState`, which collects the fees; the states themselves go on to the pool.
  unfoldable pub collect_fees : Map CurrencyId Big → List (State api) → Result (Map CurrencyId Big)
  collect_fees fee [] = ok fee
  collect_fees fee (plain_state st ∷ sts) = collect_fees fee sts
  collect_fees fee (amount_state t ∷ sts) =
      let rest = (do
        f ← Big.add (lookup_or t.cid fee zero_big) t.fee
        collect_fees (insert t.cid f fee) sts) in
      let skip = collect_fees fee sts in if over_zero t.fee then rest else skip

  unfoldable pub set_state :
      OperationProcessor → List (State api) → Result (OperationProcessor × List (State api))
  unfolding collect_fees
  set_state opr sts = do fee ← collect_fees opr.fee sts; ok (record opr { fee = fee }, sts)

  -- `process`: the new processor and the states that reach the pool. Those of `CurrencyRegister`
  -- and `CurrencyPolicyUpdater` pass `setState` by; an unknown operation is mitum's.
  unfoldable pub process :
      OperationProcessor → Prepared api → Result (OperationProcessor × List (State api))
  unfolding set_state
  process opr (prepared_transfers p) = do sts ← Transfers.process p; set_state opr sts
  process opr (prepared_accounts p) = do sts ← CreateAccounts.process p; set_state opr sts
  process opr (prepared_keys p) = do sts ← KeyUpdater.process p; set_state opr sts
  process opr (prepared_register p) = do sts ← Currencies.register_process p; ok (opr, sts)
  process opr (prepared_policy p) = do sts ← Currencies.policy_process p; ok (opr, sts)
  process opr unprepared = ok (opr, [])

  -- `Close`: the states by which the collected fees are paid out.
  unfoldable pub close :
      Option (CurrencyPool api)
      → (Bytes → Result (State api × Bool))
      → OperationProcessor
      → Result (List (Option (State api)))
  close none get_state opr = ok []
  close (some cp) get_state opr =
      if ltb 0 (length opr.fee)
      then FeeOperation.process cp get_state (fee_amounts opr.fee)
      else ok []

  -- What mitum does with the prepared operations of a block: `Process` of one after the other, in
  -- whatever order.
  unfoldable pub process_all :
      OperationProcessor → List (Prepared api) → Result (OperationProcessor × List (State api))
  unfolding process
  process_all opr [] = ok (opr, [])
  process_all opr (p ∷ ps) = do
    r ← process opr p
    rest ← process_all r.0 ps
    ok (rest.0, r.1 ++ rest.1)
