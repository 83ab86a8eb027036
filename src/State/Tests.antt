-- ===== src/State/Tests.antt =====
-- currency/amount_state.go: runs.
use mitum_currency.Prelude.{some, List, [], ◌∷◌, ◌≡◌, refl}
use mitum_currency.Prelude.Int.{pos, negsuc, ◌+ℤ◌}
use mitum_currency.Big
use mitum_currency.Big.{int}
use mitum_currency.State
use mitum_currency.State.{State, AmountState, amount_state, amount_value, merge}
use mitum_currency.State.Merging.{merge_all, merge_all-adds, sum_add, sum_fee, balance_of, fee_of}
use mitum_currency.Examples.{api, mcc, amount_of}

abbrev updates : List (AmountState api)
updates =
    record {
      state = some (amount_value (amount_of 50));
      cid = mcc;
      add = int (pos 20);
      fee = int (pos 0);
    }
    ∷ record {
      state = some (amount_value (amount_of 50));
      cid = mcc;
      add = int (negsuc 29);
      fee = int (pos 3);
    }
    ∷ []

abbrev stored : State api
stored = amount_state (record {
  state = some (amount_value (amount_of 50));
  cid = mcc;
  add = int (pos 0);
  fee = int (pos 1);
})

abbrev updated : State api
updated = amount_state (record {
  state = some (amount_value (amount_of 40));
  cid = mcc;
  add = int (negsuc 29);
  fee = int (pos 4);
})

merge_all-adds_example :
    (balance_of updated ≡ balance_of stored +ℤ sum_add updates)
    × (fee_of updated ≡ fee_of stored +ℤ sum_fee updates)
unfolding merge merge_all State.balance_or_zero State.state_balance_value State.value_of
    State.fee_of_base State.add_fee State.set_state_balance_value State.set_value Big.add ◌+ℤ◌
merge_all-adds_example = merge_all-adds updates stored refl
