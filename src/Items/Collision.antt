-- ===== src/Items/Collision.antt =====
-- currency/amount.go: `Amount.Bytes` does not tell every two amounts apart.
use mitum_currency.Prelude.{ℕ, ◌+◌, ◌*◌, ◌/◌, ◌%◌, ◌<◌, ◌≡◌, ap, ◌∙◌, sym, [], ◌∷◌, ◌++◌, arith, ok}
use mitum_currency.Prelude.Int.{pos}
use mitum_currency.Prelude.Digits.{digits_256, digits_256-last}
use mitum_currency.CurrencyId.{CurrencyId}
use mitum_currency.Big.{int}
use mitum_currency.Big.Bytes.{big_bytes}
use mitum_currency.Items.{amount_bytes}
use mathlib.Core.List.{append_assoc}

-- For a number n over zero and a byte c, `Amount.Bytes` of n of the currency whose id is c and
-- then cid is that of n * 256 + c of the currency cid.
pub amount_bytes-collide :
    (n c : ℕ) (cid : CurrencyId)
    → 0 < n
    → c < 256
    → amount_bytes (record { big = int (pos n); cid = c ∷ cid })
      ≡ amount_bytes (record { big = int (pos (n * 256 + c)); cid = cid })
unfolding amount_bytes big_bytes
amount_bytes-collide n c cid hn hc =
    let high : (n * 256 + c) / 256 ≡ n = omega arith in
    let low : (n * 256 + c) % 256 ≡ c = omega arith in
    let last : digits_256 (n * 256 + c) ≡ digits_256 n ++ (c ∷ []) =
      digits_256-last (n * 256 + c) (omega arith) ∙ rw (high, low) in
    ap ok (sym (ap (λ x. x ++ cid) last ∙ append_assoc (digits_256 n) (c ∷ []) cid))
