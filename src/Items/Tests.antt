-- ===== src/Items/Tests.antt =====
-- currency/transfers_item.go and currency/amount.go: runs.
use mitum_currency.Prelude.{◌≡◌, arith}
use mitum_currency.Prelude.Int.{pos}
use mitum_currency.Prelude.Bytes.{bytes}
use mitum_currency.Big.{int}
use mitum_currency.Items.{amount_bytes}
use mitum_currency.Items.Collision.{amount_bytes-collide}

-- 65 of BCDE and 16706 of CDE
amount_bytes-collide_example :
    amount_bytes (record { big = int (pos 65); cid = bytes "BCDE" })
    ≡ amount_bytes (record { big = int (pos 16706); cid = bytes "CDE" })
amount_bytes-collide_example = amount_bytes-collide 65 66 (bytes "CDE") (omega arith) (omega arith)
