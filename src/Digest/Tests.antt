-- ===== src/Digest/Tests.antt =====
-- digest/digest.go and digest/block_session.go: runs.
use mathlib.Core.List.{Perm}
use mitum_currency.Prelude.{ℕ, List, ◌++◌, Result, err, false, some, [], ◌∷◌, ◌≡◌, refl, ok}
use mitum_currency.Prelude.Int.{pos, ◌+ℤ◌}
use mitum_currency.StateKey
use mitum_currency.Digest.Database.{Database, Tables}
use mitum_currency.Digest.Session
use mitum_currency.Digest.Session.{Models, prepare, digest_block, write_models}
use mitum_currency.Digest.Chunks.{write_models-appends}
use mitum_currency.Digest.Digesting.{IsDigested, digest_block-IsDigested}
use mitum_currency.Digest.Again.{digest_block-again}
use mitum_currency.Prelude.{panic}
use mitum_currency.Prelude.Bytes.{bytes}
use mitum_currency.Digest.Problem.{
  problem_namespace, make_problem_namespace, parse_problem_namespace,
  parse_problem_namespace-make_problem_namespace,
}
use mitum_currency.Digest.FollowUp.{IsUpTo, digest_followup, digest_followup-IsUpTo}
use mitum_currency.Prelude.Int.{ℤ, ◌-ℤ◌}
use mitum_currency.Digest.Session.{Block}
use mitum_currency.Digest.Examples.{dig, lists, third}

abbrev two_docs : List ℕ
two_docs = 4 ∷ 5 ∷ []

abbrev five_docs : List ℕ
five_docs = 4 ∷ 5 ∷ 1 ∷ 2 ∷ 3 ∷ []

write_models-appends_example :
    Perm (lists.documents five_docs) (lists.documents two_docs ++ (1 ∷ 2 ∷ 3 ∷ []))
unfolding write_models Session.write_chunk
write_models-appends_example =
    write_models-appends lists (1 ∷ 2 ∷ 3 ∷ []) two_docs {col' = five_docs} refl

-- The last block is the one that is digested again.
abbrev handle : Database
handle = record { readonly = false; last_block = pos 3 }

abbrev empty : Tables dig lists
empty = record { accounts = []; balances = []; operations = []; last_block = some (3 ∷ []) }

abbrev got : Result (Database × Tables dig lists) → Database × Tables dig lists
got (ok r) = r
got (err e) = (handle, empty)

abbrev models : Result (Models dig) → Models dig
models (ok ms) = ms
models (err e) = record { operation_models = []; account_models = []; balance_models = [] }

abbrev once : Database × Tables dig lists
once = got (digest_block dig lists third handle empty)

abbrev twice : Database × Tables dig lists
twice = got (digest_block dig lists third once.0 once.1)

digest_block-IsDigested_example :
    (ms : Models dig) × IsDigested dig lists third ms handle empty once.0 once.1
unfolding digest_block StateKey.is_state_account_key StateKey.state_key_account
    StateKey.state_key_balance StateKey.is_state_balance_key StateKey.state_key_currency_design ◌+ℤ◌
digest_block-IsDigested_example =
    digest_block-IsDigested dig lists third handle empty {r = once} refl

digest_block-again_example :
    Perm twice.1.accounts once.1.accounts
    × Perm twice.1.balances once.1.balances
    × Perm twice.1.operations once.1.operations
unfolding digest_block StateKey.is_state_account_key StateKey.state_key_account
    StateKey.state_key_balance StateKey.is_state_balance_key StateKey.state_key_currency_design ◌+ℤ◌
digest_block-again_example =
    digest_block-again dig lists third handle empty {r = once} {r' = twice}
      (refl, (refl, (refl, tt))) refl refl

-- Every block is like the one of the tests, at its own height.
abbrev load_block : ℤ → Result (Block dig)
load_block i = ok (record third { height = i })

abbrev behind : Database
behind = record { readonly = false; last_block = pos 2 }

abbrev followed : Database × Tables dig lists
followed = got (digest_followup dig lists load_block (pos 4) behind empty)

digest_followup-IsUpTo_example : IsUpTo dig lists (pos 4) followed
unfolding digest_followup digest_block StateKey.is_state_account_key StateKey.state_key_account
    StateKey.state_key_balance StateKey.is_state_balance_key StateKey.state_key_currency_design ◌+ℤ◌
    ◌-ℤ◌
digest_followup-IsUpTo_example =
    digest_followup-IsUpTo dig lists load_block (λ i blk e. cc) (pos 4) behind empty {r = followed}
      refl refl refl

parse_problem_namespace-make_problem_namespace_example :
    (parse_problem_namespace problem_namespace
        (make_problem_namespace problem_namespace (bytes "others"))
      ≡ ok (bytes "others"))
    × (parse_problem_namespace problem_namespace problem_namespace ≡ err panic)
parse_problem_namespace-make_problem_namespace_example =
    parse_problem_namespace-make_problem_namespace problem_namespace (bytes "others")
