-- ===== src/Lib.antt =====
-- Verification of mitum-currency, the multi-currency token model for the mitum blockchain.
--
-- The program runs in three layers. The package `currency` holds the data model (amounts, keys,
-- accounts, currency designs and fees) and the operations (transfers, new accounts, new keys,
-- registration of a currency and change of its policy), each with a processor whose `PreProcess`
-- checks it against the states of the database and whose `Process` emits the new states. The
-- `OperationProcessor` of a block runs the processors, refuses what clashes within the block, gathers
-- the fees that the emitted states carry and pays them out when it closes. The packages `digest` and
-- `cmds` index and serve the blocks and make up the command line. This library models the package
-- `currency` and of `digest` the database and its searches.
--
--   Prelude        tests, lists, errors, integers, byte strings, maps, and sums over maps
--   Big            currency/big.go: an integer that may be a nil pointer; products with a float64 are
--                  rounded as math/big does at 64 bits of mantissa (Big/Float); decimal
--                  texts (Big/Text), division (Big/Division), values of any type (Big/Interface)
--   Mitum          what is taken from the framework: public keys, hashes, the hint of an address
--   CurrencyId     currency/currency.go: the syntax of currency ids
--   StateKey       currency/state.go: the texts of the keys in the state database
--   Keys           currency/keys.go, address.go, account.go: weighted keys and the threshold
--   Feeer          currency/feeer.go: no fee, a fixed fee, a share of the amount
--   Design         currency/amount.go, currency_policy.go, currency_design.go
--   State          currency/state.go, amount_state.go: reading and writing states, and the balances
--                  that collect what a block adds to them
--   Pool           currency/currency_pool.go: the registered currencies
--   Fees           currency/create_accounts_process.go, signs.go: what an operation costs, whether
--                  the sender has it, and whether the signatures suffice
--   Memo           currency/memo.go, and the check of it in every operation
--   Items          the amounts of the items of transfers and new accounts, and their bytes
--   Emission       the credits and debits that transfers and new accounts share
--   Transfers, CreateAccounts, KeyUpdater, Currencies, FeeOperation
--                  the operations, each with `PreProcess` and `Process`; the children called Facts
--                  have the bytes, the hashes and the validity of their facts. An item is of a kind:
--                  single-amount and multi-amounts items are made by the constructors, and base items
--                  by decoding, as the registered hinters are of the base types
--   Genesis        currency/genesis_currencies.go, genesis_currencies_process.go: the first operation
--   Operations     currency/operation_processor.go: the processor of a block
--   Digest         the package digest: Driver (what it takes from MongoDB and mitum), Database
--                  (digest/database.go: the collections and their cleaning), Session
--                  (digest/block_session.go, digest.go: the documents of a block and their writing),
--                  Offset (digest/database.go, util.go: texts of positions), Search (digest/database.go,
--                  handler_operation.go: filters, limits, and the pages of a search), Balance
--                  (digest/database.go: an account with its balances), FollowUp
--                  (cmds/process_digester.go: the digesting of missed blocks), Problem
--                  (digest/problem.go: the namespace of types of problems)
--   Examples       the concrete network, database and pool on which the tests run
--
-- A Go error is a value of `Result`; a panic (a nil `Big` that is read, a failed type assertion) is
-- an error of its own, so a theorem about a result that is `ok` also says that nothing panicked. A
-- Go map is an association list, and a `range` over it takes the list's order. The states of the
-- framework are a parameter (`StateApi`), whose one law is that a value that was set is the one
-- that is read; the database is the function `get_state` that the processors are given. Every loop
-- is structural recursion, on a list or on the number of its rounds; the length of a number in bits
-- (Big/Float) is computed on the number itself as fuel, which is enough since each step halves it.
-- `uint` sums of weights wrap at 2^64. Hashes, public keys and hinted texts are parameters
-- (`Mitum`) without laws; a theorem that needs one names it. The collections of MongoDB are a
-- parameter (`Driver`) with the laws that MongoDB documents of drops, deletes and inserts. The laws
-- fix the documents of a collection up to their order, since `writeModels` writes in unordered
-- bulks (`SetOrdered(false)`), whose inserts the server may reorder. A failed write leaves no
-- state, so what stands after an error is not spoken of. Pages of a search are read on fuel, and
-- any number above that of the operations is enough; the rounds of the search for balances too, and
-- any number above that of the balances is enough.
--
-- Not modelled are the encodings to BSON and JSON, the hashes and heights of states, the memory
-- pool of states of the framework (its merge of several states is `merge_all`), the loop of mitum
-- over the operations of a block (`process_all` stands for it), the HTTP handlers, the cache and
-- the links of `digest`, the indexes of its collections, and the rest of the package `cmds`.
pub mod Prelude
pub mod Big
pub mod Mitum
pub mod CurrencyId
pub mod StateKey
pub mod Keys
pub mod Feeer
pub mod Design
pub mod State
pub mod Pool
pub mod Fees
pub mod Emission
pub mod Memo
pub mod Items
pub mod Transfers
pub mod CreateAccounts
pub mod KeyUpdater
pub mod Currencies
pub mod FeeOperation
pub mod Genesis
pub mod Digest
pub mod Operations
pub mod Examples
