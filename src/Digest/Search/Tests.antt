-- ===== src/Digest/Search/Tests.antt =====
-- digest/database.go and digest/handler_operation.go: runs.
use mitum_currency.Prelude.{ℕ, Bool, true, Option, List, [], ◌≡◌, refl, ok, Result, arith, All}
use mitum_currency.Prelude.Int.{pos}
use mitum_currency.Prelude.Slices.{keep}
use mitum_currency.Prelude.Digits.{digits_10}
use mitum_currency.Prelude.Decimal
use mitum_currency.StateKey
use mitum_currency.Keys
use mitum_currency.Digest.Database.{OperationDoc}
use mitum_currency.Digest.Offset
use mitum_currency.Digest.Offset.{parse_offset, build_offset}
use mitum_currency.Digest.Offset.Reading.{parse_offset-build_offset}
use mitum_currency.Digest.Search.{Filter, selects, limited, operations, operations_by_address}
use mitum_currency.Digest.Search.Order.{IsOrdered}
use mitum_currency.Digest.Search.Pages.{read_pages}
use mitum_currency.Digest.Search.Complete.{
  IsReadable, concerns, operations_complete, operations_by_address_complete,
}
use mitum_currency.Digest.Examples.{dig, newest_first}
use mitum_currency.Examples.{ann, address_of}

abbrev find : Filter → Bool → Option ℕ → Result (List (OperationDoc dig))
find f reverse l = ok (limited l (keep (selects dig f) newest_first))

parse_offset-build_offset_example : parse_offset dig (build_offset (pos 33) 7) ≡ ok (pos 33, 7)
unfolding Decimal.int_text_of Decimal.text_of digits_10 Offset.parse_uint Offset.parse_from
    Offset.parse_next
parse_offset-build_offset_example = parse_offset-build_offset dig (pos 33) 7 refl (omega arith)

newest_first-IsOrdered : IsOrdered dig true newest_first
newest_first-IsOrdered = ((refl, (refl, tt)), ((refl, tt), (tt, tt)))

newest_first-IsReadable : All (IsReadable dig) newest_first
unfolding Decimal.int_text_of Decimal.text_of digits_10 Offset.parse_uint Offset.parse_from
    Offset.parse_next
newest_first-IsReadable = ((refl, omega arith), ((refl, omega arith), ((refl, omega arith), tt)))

-- Pages of two operations.
operations_complete_example :
    read_pages dig (λ o. operations dig find true o (pos 2)) 4 [] ≡ ok newest_first
operations_complete_example =
    operations_complete dig find true newest_first (pos 2) 4 (λ f l. refl) newest_first-IsOrdered
      newest_first-IsReadable (omega arith)

operations_by_address_complete_example :
    read_pages dig (λ o. operations_by_address dig find (address_of ann) true o (pos 2)) 4 []
    ≡ ok (keep (concerns dig (address_of ann)) newest_first)
unfolding Keys.contains_text StateKey.state_address_key_prefix
operations_by_address_complete_example =
    operations_by_address_complete dig find true newest_first (address_of ann) (pos 2) 4
      (λ f l. refl) newest_first-IsOrdered newest_first-IsReadable (omega arith)
