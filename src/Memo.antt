-- ===== src/Memo.antt =====
-- currency/memo.go, and the `IsValid` that every operation has.
use mitum_currency.Prelude.{ℕ, not, Result, plain, invalid, guard, ltb, length, ◌>>◌}
use mitum_currency.Prelude.Bytes.{Bytes}

abbrev pub max_memo_size : ℕ
max_memo_size = 100

unfoldable pub is_valid_memo : Bytes → Result (Unit {0})
is_valid_memo s = guard (not (ltb max_memo_size (length s))) (plain invalid)

-- `IsValid` of an operation, for what `operation.IsValidOperation` of mitum says of it.
unfoldable pub operation_is_valid : Bytes → Result (Unit {0}) → Result (Unit {0})
unfolding is_valid_memo
operation_is_valid memo checked = is_valid_memo memo >> checked
