-- ===== src/CurrencyId.antt =====
-- currency/currency.go: currency ids and their validity.
use mitum_currency.Prelude.{
  Bool, false, ◌&&◌, ◌||◌, [], ◌∷◌, ltb, leb, eqb, length, Result, ok, err, plain, invalid,
  if◌then◌else◌, ℕ,
}
use mitum_currency.Prelude.Bytes.{Bytes}

-- `type CurrencyID string`
abbrev pub CurrencyId : Type 0
CurrencyId = Bytes

abbrev pub min_length_currency_id : ℕ
min_length_currency_id = 3

abbrev pub max_length_currency_id : ℕ
max_length_currency_id = 10

-- `[A-Z0-9]`
unfoldable pub is_edge : ℕ → Bool
is_edge c = (leb b'A' c && leb c b'Z') || (leb b'0' c && leb c b'9')

-- `[A-Z0-9_\.\!\$\*\+\@]`
unfoldable pub is_inner : ℕ → Bool
unfolding is_edge
is_inner c =
    is_edge c
    || eqb c b'_'
    || eqb c b'.'
    || eqb c b'!'
    || eqb c b'$'
    || eqb c b'*'
    || eqb c b'+'
    || eqb c b'@'

-- `[A-Z0-9_\.\!\$\*\+\@]*[A-Z0-9]$`
unfoldable pub matches_rest : Bytes → Bool
matches_rest [] = false
matches_rest (c ∷ []) = is_edge c
matches_rest (c ∷ d ∷ cs) = is_inner c && matches_rest (d ∷ cs)

-- `ReValidCurrencyID.Match`
unfoldable pub matches_currency_id : Bytes → Bool
matches_currency_id [] = false
matches_currency_id (c ∷ cs) = is_edge c && matches_rest cs

unfoldable pub is_valid : CurrencyId → Result (Unit {0})
unfolding matches_currency_id matches_rest is_inner
is_valid cid =
    let l = length cid in
    if ltb l min_length_currency_id || ltb max_length_currency_id l
    then err (plain invalid)
    else (if matches_currency_id cid then ok tt else err (plain invalid))
