-- ===== src/Digest/Balance/Tests.antt =====
-- digest/database.go: a run of `balance`.
use mitum_currency.Prelude.{
  ℕ, Bool, true, false, Option, none, some, List, [], ◌∷◌, ◌≡◌, refl, sym, ap, subst, Result, ok,
  arith, inl, inr, Bool-cases,
}
use mitum_currency.Prelude.Int.{pos, ◌≤ℤ◌}
use mitum_currency.Prelude.Bytes.{Bytes}
use mitum_currency.CurrencyId.{CurrencyId}
use mitum_currency.StateKey.{state_address_key_prefix}
use mitum_currency.State
use mitum_currency.State.{amount_value}
use mitum_currency.Digest.Database.{BalanceDoc}
use mitum_currency.Digest.Balance.{Balances, balance}
use mitum_currency.Digest.Balance.Latest.{
  IsIn, is_wanted, Finds, HoldAmounts, IsLatest, balance-IsLatest,
}
use mitum_currency.Digest.Examples.{dig}
use mitum_currency.Examples.{api, mcc, ann, address_of, amount_of}

abbrev balance_at : ℕ → ℕ → BalanceDoc api
balance_at h n = record {
  address = state_address_key_prefix (address_of ann);
  currency = mcc;
  height = pos h;
  st = some (amount_value (amount_of n));
}

abbrev docs : List (BalanceDoc api)
docs = balance_at 2 100 ∷ balance_at 3 70 ∷ []

abbrev answer : Bool → Option (BalanceDoc api)
answer true = some (balance_at 3 70)
answer false = none

-- The newer one, unless its currency is left out.
abbrev find_balance : Bytes → List CurrencyId → Result (Option (BalanceDoc api))
find_balance k cids = ok (answer (is_wanted (address_of ann) cids (balance_at 3 70)))

find_balance-Finds : Finds dig find_balance (address_of ann) docs
find_balance-Finds cids =
    elim (Bool-cases (is_wanted {api = api} (address_of ann) cids (balance_at 3 70))) [
      | inl wanted ↦
          (some (balance_at 3 70), ap (λ b. ok (answer b)) wanted, (inr (inl refl), wanted, newest))
      | inr other ↦ (none, ap (λ b. ok (answer b)) other, all_alike (λ b. b ≡ false) other)
    ]
  where
    newest :
        (e : BalanceDoc api)
        → IsIn e docs
        → is_wanted (address_of ann) cids e ≡ true
        → e.height ≤ℤ pos 3
    newest e (inl same) w = subst (λ x. x.height ≤ℤ pos 3) (sym same) (omega arith)
    newest e (inr (inl same)) w = subst (λ x. x.height ≤ℤ pos 3) (sym same) (omega arith)
    newest e (inr (inr never)) w = absurd never

    all_alike :
        (P : Bool → Type 0)
        → P (is_wanted {api = api} (address_of ann) cids (balance_at 3 70))
        → (e : BalanceDoc api) → IsIn e docs
        → P (is_wanted (address_of ann) cids e)
    all_alike P p e (inl same) = subst (λ x. P (is_wanted (address_of ann) cids x)) (sym same) p
    all_alike P p e (inr (inl same)) =
        subst (λ x. P (is_wanted (address_of ann) cids x)) (sym same) p
    all_alike P p e (inr (inr never)) = absurd never

docs-HoldAmounts : HoldAmounts dig find_balance (address_of ann) docs
unfolding State.state_balance_value State.value_of
docs-HoldAmounts d (inl same) = (
  amount_of 100,
  ap (λ x. State.state_balance_value {api = api} (State.plain_state x.st)) same,
  sym (ap (λ x. x.currency) same),
)
docs-HoldAmounts d (inr (inl same)) = (
  amount_of 70,
  ap (λ x. State.state_balance_value {api = api} (State.plain_state x.st)) same,
  sym (ap (λ x. x.currency) same),
)
docs-HoldAmounts d (inr (inr never)) = absurd never

balance-IsLatest_example :
    (b : Balances) × (balance dig find_balance 3 (address_of ann) ≡ ok b)
    × ((e : BalanceDoc api)
        → IsIn e docs
        → e.address ≡ state_address_key_prefix (address_of ann)
        → IsLatest dig find_balance (address_of ann) docs b.amm e)
balance-IsLatest_example =
    balance-IsLatest dig find_balance (address_of ann) docs 3 find_balance-Finds docs-HoldAmounts
      (omega arith)
