-- ===== src/Fees.antt =====
-- currency/create_accounts_process.go (`CalculateItemsFee`, `CheckEnoughBalance`) and
-- currency/signs.go: what an operation costs its sender, and who may order it.
pub mod Required
pub mod Enough
pub mod Nonneg
mod Tests
use mitum_currency.Prelude.{
  ℕ, suc, Bool, true, false, not, Option, none, some, List, [], ◌∷◌, if◌then◌else◌, ltb, leb,
  Result, ok, err, plain, reason, unknown_currency, insufficient_balance, not_enough_signs, ◌>>=◌,
  ◌>>◌, guard, as_reason,
}
use mitum_currency.Prelude.Bytes.{Bytes, bytes_eq_instance}
use mitum_currency.Prelude.Map.{Map, lookup_or, insert}
use mitum_currency.Mitum.{Mitum}
use mitum_currency.CurrencyId.{CurrencyId}
use mitum_currency.StateKey.{Address, state_key_account, state_key_balance}
use mitum_currency.Big
use mitum_currency.Big.{Big, zero_big, over_zero, compare_big, is_lt}
use mitum_currency.Feeer
use mitum_currency.Keys.{check_threshold}
use mitum_currency.Design.{Amount}
use mitum_currency.State.{
  StateApi, State, AmountState, new_amount_state, state_balance_value, state_keys_value,
  exists_state,
}
use mitum_currency.Pool
use mitum_currency.Pool.{CurrencyPool}

-- `map[CurrencyID][2]Big`: what the sender pays, fees included, and the fees.
abbrev pub Required : Type 0
Required = Map CurrencyId (Big × Big)

-- The end of the loop's body: `k` is the fee.
unfoldable pub require : Required → Big × Big → Amount → Big → Result Required
require required rq am k =
    if over_zero k
    then (do
      s ← Big.add rq.0 am.big
      t ← Big.add s k
      f ← Big.add rq.1 k
      ok (insert am.cid (t, f) required))
    else (do s ← Big.add rq.0 am.big; ok (insert am.cid (s, rq.1) required))

module _ {m : Mitum} {api : StateApi m} where
  -- The body of the loop of `CalculateItemsFee`; `cp` may be nil.
  unfoldable pub require_amount : Option (CurrencyPool api) → Required → Amount → Result Required
  unfolding require
  require_amount cp required am =
      let rq = lookup_or am.cid required (zero_big, zero_big) in
      elim cp [
        | none ↦ do s ← Big.add rq.0 am.big; ok (insert am.cid (s, rq.1) required)
        | some p ↦ elim (Pool.feeer p am.cid) [
          | none ↦ err (plain unknown_currency)
          | some feeer ↦ do k ← Feeer.fee feeer am.big; require required rq am k
        ]
      ]

  unfoldable pub require_amounts :
      Option (CurrencyPool api) → Required → List Amount → Result Required
  unfolding require_amount
  require_amounts cp required [] = ok required
  require_amounts cp required (am ∷ ams) = do
    r ← require_amount cp required am
    require_amounts cp r ams

  -- The two loops of `CalculateItemsFee`; an item enters by its amounts.
  unfoldable pub require_items :
      Option (CurrencyPool api) → Required → List (List Amount) → Result Required
  unfolding require_amounts
  require_items cp required [] = ok required
  require_items cp required (it ∷ items) = do
    r ← require_amounts cp required it
    require_items cp r items

  unfoldable pub calculate_items_fee :
      Option (CurrencyPool api) → List (List Amount) → Result Required
  unfolding require_items
  calculate_items_fee cp items = require_items cp [] items

  -- The loop of `CheckEnoughBalance` over what is left of `required`.
  unfoldable pub collect_balances :
      Address
      → Required
      → (Bytes → Result (State api × Bool))
      → Map CurrencyId (AmountState api)
      → Result (Map CurrencyId (AmountState api))
  collect_balances holder [] get_state sb = ok sb
  collect_balances holder ((cid, rq) ∷ required) get_state sb = do
    st ← exists_state (state_key_balance holder cid) get_state
    am ← as_reason (state_balance_value st)
    o ← compare_big am.big rq.0
    guard (not (is_lt o)) (reason insufficient_balance)
    collect_balances holder required get_state (insert cid (new_amount_state st cid) sb)

  unfoldable pub check_enough_balance :
      Address
      → Required
      → (Bytes → Result (State api × Bool))
      → Result (Map CurrencyId (AmountState api))
  unfolding collect_balances
  check_enough_balance holder required get_state = collect_balances holder required get_state []

  -- `checkFactSignsByState`; the fact signs enter by their signers.
  unfoldable pub check_fact_signs_by_state :
      Address → List m.Publickey → (Bytes → Result (State api × Bool)) → Result (Unit {0})
  check_fact_signs_by_state address fs get_state = do
    st ← exists_state (state_key_account address) get_state
    ks ← as_reason (state_keys_value st)
    as_reason (check_threshold fs ks)

module _ (m : Mitum) where
  -- Whether a signer is one of the public keys.
  unfoldable pub is_one_of : m.Publickey → List m.Publickey → Bool
  is_one_of s [] = false
  is_one_of s (p ∷ pubs) = if m.publickey_equal s p then true else is_one_of s pubs

  unfoldable pub count_signed : List m.Publickey → List m.Publickey → ℕ
  unfolding is_one_of
  count_signed pubs [] = 0
  count_signed pubs (s ∷ signs) =
      let n = count_signed pubs signs in if is_one_of s pubs then suc n else n

  -- `checkFactSignsByPubs`: each sign counts, also a second one of the same key.
  unfoldable pub check_fact_signs_by_pubs :
      List m.Publickey → ℕ → List m.Publickey → Result (Unit {0})
  unfolding count_signed
  check_fact_signs_by_pubs pubs threshold signs =
      guard (not (ltb (count_signed pubs signs) threshold)) (reason not_enough_signs)
