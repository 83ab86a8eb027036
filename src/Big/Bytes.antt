-- ===== src/Big/Bytes.antt =====
-- `Bytes` of math/big behind `Big`: the digits of the magnitude in base 256, without the sign.
use mitum_currency.Prelude.{◌+◌, Result, ok, err, panic}
use mitum_currency.Prelude.Int.{pos, negsuc}
use mitum_currency.Prelude.Bytes.{Bytes}
use mitum_currency.Prelude.Digits.{digits_256}
use mitum_currency.Big.{Big, nil, int}

unfoldable pub big_bytes : Big → Result Bytes
unfolding digits_256
big_bytes nil = err panic
big_bytes (int (pos n)) = ok (digits_256 n)
big_bytes (int (negsuc n)) = ok (digits_256 (n + 1))
