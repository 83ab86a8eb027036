-- ===== src/Digest/Balance.antt =====
-- digest/database.go: the account that is asked for, with the balances of all its currencies.
pub mod Latest
mod Tests
use mitum_currency.Prelude.{
  ℕ, zero, suc, Bool, true, false, not, Option, none, some, List, [], ◌∷◌, ◌++◌, map, Result, ok,
  err, panic, ◌>>=◌, if◌then◌else◌, ◌&&◌,
}
use mitum_currency.Prelude.Int.{ℤ, ltb_ℤ}
use mitum_currency.Prelude.Bytes.{Bytes, bytes_eq, bytes_eq_instance}
use mitum_currency.Prelude.Map.{Map, insert}
use mitum_currency.Mitum.{Mitum}
use mitum_currency.CurrencyId.{CurrencyId}
use mitum_currency.StateKey.{Address, state_address_key_prefix}
use mitum_currency.Keys.{contains_text}
use mitum_currency.Design.{Amount}
use mitum_currency.State.{StateApi, plain_state, state_balance_value}
use mitum_currency.Digest.Driver.{DigestApi}
use mitum_currency.Digest.Database.{AccountValue, AccountDoc, BalanceDoc}

-- What the loop of `balance` has gathered.
pub record Balances : Type 0 where
  pub amm : Map CurrencyId Amount
  pub last_height : ℤ
  pub previous_height : ℤ

module _ {m : Mitum} {api : StateApi m} (dig : DigestApi api) where
  -- What a round of the loop takes from a balance.
  abbrev pub gather : Balances → BalanceDoc api → Amount → Balances
  gather found d am =
      let higher = ltb_ℤ found.last_height (dig.height d.st) in
      record {
        amm = insert am.cid am found.amm;
        last_height = if higher then dig.height d.st else found.last_height;
        previous_height = if higher then dig.previous_height d.st else found.previous_height;
      }

  -- A balance of the highest height under an address, in none of the listed currencies
  module _ (find_balance : Bytes → List CurrencyId → Result (Option (BalanceDoc api))) where
    -- The loop of `balance`, for so many rounds.
    unfoldable pub balance_loop : ℕ → Address → List CurrencyId → Balances → Result Balances
    balance_loop zero a cids found = err panic
    balance_loop (suc n) a cids found = do
      doc ← find_balance (state_address_key_prefix a) cids
      elim doc [
        | none ↦ ok found
        | some d ↦ do
          am ← state_balance_value {api = api} (plain_state d.st)
          balance_loop n a (cids ++ (am.cid ∷ [])) (gather found d am)
      ]

    unfoldable pub balance : ℕ → Address → Result Balances
    unfolding balance_loop
    balance n a =
        balance_loop n a []
          (record { amm = []; last_height = dig.nil_height; previous_height = dig.nil_height })

    -- `Account`; `find_account` gives the document of the highest height under an address.
    unfoldable pub account :
        (Bytes → Result (Option (AccountDoc m))) → ℕ → Address → Result (Option (AccountValue m))
    unfolding balance
    account find_account n a = do
      doc ← find_account (state_address_key_prefix a)
      elim doc [
        | none ↦ ok none
        | some d ↦ do
          b ← balance n a
          ok (
              some (record d.value {
                balance = map (λ e. e.1) b.amm;
                height = b.last_height;
                previous_height = b.previous_height;
              }))
      ]
