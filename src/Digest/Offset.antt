-- ===== src/Digest/Offset.antt =====
-- digest/database.go: the texts of offsets (`buildOffset`, `parseOffset`), with what fmt and strconv
-- do there; digest/util.go: texts of queries.
pub mod Reading
use mitum_currency.Prelude.{
  ℕ, zero, suc, ◌+◌, ◌-◌, ◌*◌, ◌^◌, Bool, true, false, not, Option, none, some, List, [], ◌∷◌, ◌++◌,
  map, ltb, leb, eqb, length, Result, ok, err, plain, invalid, guard, ◌>>=◌, ◌>>◌, if◌then◌else◌,
  ◌&&◌,
}
use mitum_currency.Prelude.Int.{ℤ, pos, negsuc}
use mitum_currency.Prelude.Bytes.{Bytes, bytes, bytes_eq}
use mitum_currency.Prelude.Decimal.{text_of, int_text_of}
use mitum_currency.Digest.Driver.{DigestApi}
use mitum_currency.Mitum.{Mitum}
use mitum_currency.State.{StateApi}

-- `buildOffset`
unfoldable pub build_offset : ℤ → ℕ → Bytes
build_offset h i = int_text_of h ++ (44 ∷ text_of i)

-- The loop of `strconv.ParseUint` in base ten, at 64 bits, after the value `v`.
unfoldable pub parse_next : ℕ → ℕ → Result ℕ
parse_next v c = do
  guard (leb 48 c && leb c 57) (plain invalid)
  guard (ltb (v * 10 + (c - 48)) (2 ^ 64)) (plain invalid)
  ok (v * 10 + (c - 48))

unfoldable pub parse_from : ℕ → Bytes → Result ℕ
unfolding parse_next
parse_from v [] = ok v
parse_from v (c ∷ cs) = do w ← parse_next v c; parse_from w cs

unfoldable pub parse_uint : Bytes → Result ℕ
unfolding parse_from
parse_uint [] = err (plain invalid)
parse_uint (c ∷ cs) = parse_from 0 (c ∷ cs)

-- `strings.SplitN(s, ",", 2)`, when there are two parts
unfoldable pub split_comma : Bytes → Option (Bytes × Bytes)
split_comma [] = none
split_comma (c ∷ cs) =
    let rest = split_comma cs in
    if eqb c 44
    then some ([], cs)
    else elim rest [ none ↦ none | some parts ↦ some (c ∷ parts.0, parts.1) ]

-- The two parts of an offset.
unfoldable pub read_parts :
    {m : Mitum} {api : StateApi m} (dig : DigestApi api) → Option (Bytes × Bytes) → Result (ℤ × ℕ)
read_parts dig none = err (plain invalid)
read_parts dig (some (height, index)) = do
  h ← dig.height_from_string height
  i ← parse_uint index
  ok (h, i)

-- `parseOffset`
unfoldable pub parse_offset :
    {m : Mitum} {api : StateApi m} (dig : DigestApi api) → Bytes → Result (ℤ × ℕ)
parse_offset dig s = read_parts dig (split_comma s)

-- `stringOffsetQuery`, `parseBoolQuery`, `stringBoolQuery` and `addQueryValue`
unfoldable pub string_offset_query : Bytes → Bytes
string_offset_query offset = bytes "offset=" ++ offset

unfoldable pub parse_bool_query : Bytes → Bool
parse_bool_query s = bytes_eq s (bytes "1")

unfoldable pub string_bool_query : Bytes → Bool → Bytes
string_bool_query key true = key ++ bytes "=1"
string_bool_query key false = []

unfoldable pub contains_question_mark : Bytes → Bool
contains_question_mark [] = false
contains_question_mark (c ∷ cs) =
    let rest = contains_question_mark cs in if eqb c 63 then true else rest

unfoldable pub add_query_value : Bytes → Bytes → Bytes
unfolding contains_question_mark
add_query_value base [] = base
add_query_value base (c ∷ s) =
    if contains_question_mark base then base ++ (38 ∷ c ∷ s) else base ++ (63 ∷ c ∷ s)
