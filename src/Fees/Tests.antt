-- ===== src/Fees/Tests.antt =====
-- currency/create_accounts_process.go: runs of `CalculateItemsFee` and `CheckEnoughBalance`.
use mitum_currency.Prelude.{some, List, [], ◌∷◌, ◌≡◌, refl}
use mitum_currency.Prelude.Int.{pos, ◌+ℤ◌}
use mitum_currency.Prelude.Bytes.{bytes_eq_instance}
use mitum_currency.Prelude.Map.{Entries}
use mitum_currency.Prelude.Sums.{sum_at}
use mitum_currency.Big
use mitum_currency.Big.{int}
use mitum_currency.Feeer
use mitum_currency.StateKey
use mitum_currency.State
use mitum_currency.Pool
use mitum_currency.Design.{Amount}
use mitum_currency.Fees
use mitum_currency.Fees.{Required, calculate_items_fee, check_enough_balance}
use mitum_currency.Fees.Required.{
  paid, fees, amounts_total, charges_total, all_amounts, calculate_items_fee-sums,
}
use mitum_currency.Fees.Enough.{Covers, check_enough_balance-Covers}
use mitum_currency.Examples.{mcc, amount_of, address_of, ann, pool, get_state}

abbrev items : List (List Amount)
items = (amount_of 30 ∷ amount_of 5 ∷ []) ∷ (amount_of 8 ∷ []) ∷ []

abbrev costs : Required
costs = (mcc, (int (pos 49), int (pos 6))) ∷ []

calculate_items_fee-sums_example :
    (sum_at paid mcc costs
      ≡ amounts_total mcc (all_amounts items) +ℤ charges_total mcc (some pool) (all_amounts items))
    × (sum_at fees mcc costs ≡ charges_total mcc (some pool) (all_amounts items))
unfolding calculate_items_fee Fees.require_items Fees.require_amounts Fees.require_amount
    Fees.require Pool.feeer Pool.get Feeer.fee Big.is_zero Big.over_zero Big.add ◌+ℤ◌
calculate_items_fee-sums_example = calculate_items_fee-sums mcc (some pool) items refl

check_enough_balance-Covers_example : Entries (Covers get_state (address_of ann)) costs
unfolding check_enough_balance Fees.collect_balances State.exists_state State.state_balance_value
    State.value_of State.new_amount_state Big.compare_big StateKey.state_key_balance
    StateKey.state_balance_key_prefix StateKey.state_address_key_prefix StateKey.state_key_account
check_enough_balance-Covers_example =
    check_enough_balance-Covers get_state (address_of ann) costs refl
