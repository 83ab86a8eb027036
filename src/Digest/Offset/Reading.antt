-- ===== src/Digest/Offset/Reading.antt =====
-- digest/database.go: `parseOffset` reads what `buildOffset` wrote.
use mitum_currency.Prelude.{
  ℕ, zero, suc, ◌+◌, ◌-◌, ◌*◌, ◌/◌, ◌%◌, ◌^◌, ◌≤◌, ◌<◌, ◌≡◌, refl, sym, ap, ◌∙◌, false, some, [],
  ◌∷◌, ◌++◌, map, eqb, Result, ok, err, ◌>>=◌, arith,
}
use mitum_currency.Prelude.Int.{ℤ, pos, negsuc}
use mitum_currency.Prelude.Bytes.{Bytes}
use mitum_currency.Prelude.{All-map}
use mitum_currency.Prelude.Decimal.{
  text_of, int_text_of, map-snoc, text_of-suc, AreAbove, text_of-AreAbove,
}
use mitum_currency.Prelude.Digits.{digits_10, digits_10-last}
use mitum_currency.Mitum.{Mitum}
use mitum_currency.State.{StateApi}
use mitum_currency.Digest.Driver.{DigestApi}
use mitum_currency.Digest.Offset.{
  build_offset, parse_next, parse_from, parse_uint, split_comma, read_parts, parse_offset,
}

parse_from-snoc :
    (v : ℕ) (cs : Bytes) (c : ℕ)
    → parse_from v (cs ++ (c ∷ [])) ≡ (parse_from v cs >>= λ w. parse_next w c)
unfolding parse_from
parse_from-snoc v [] c = onward (parse_next v c)
  where
    onward : (r : Result ℕ) → (r >>= λ w. ok w) ≡ r
    onward (ok w) = refl
    onward (err e) = refl
parse_from-snoc v (d ∷ cs) c =
    onward (parse_next v d) (λ w. parse_from w (cs ++ (c ∷ []))) (λ w. parse_from w cs)
      (λ w. parse_next w c) (λ w. parse_from-snoc w cs c)
  where
    onward :
        (r : Result ℕ) (f g k : ℕ → Result ℕ)
        → ((w : ℕ) → f w ≡ (g w >>= k))
        → (r >>= f) ≡ ((r >>= g) >>= k)
    onward (ok w) f g k same = same w
    onward (err e) f g k same = refl

-- The digits of a number below 2^64 are read as that number.
parse-digits :
    (bound n : ℕ) → n ≤ bound → n < 2 ^ 64 → parse_from 0 (map (λ d. 48 + d) (digits_10 n)) ≡ ok n
unfolding parse_from parse_next digits_10
parse-digits bound zero h small = refl
parse-digits zero (suc n) h small = absurd (omega arith)
parse-digits (suc bound) (suc n) h small =
    let k = suc n in
    let low : k % 10 < 10 = omega arith in
    let high : k / 10 ≤ bound = omega arith in
    let whole : k / 10 * 10 + (48 + k % 10 - 48) ≡ k = omega arith in
    let before : parse_from 0 (map (λ d. 48 + d) (digits_10 (k / 10))) ≡ ok (k / 10) =
      parse-digits bound (k / 10) high (omega arith) in
    let read : parse_next (k / 10) (48 + k % 10) ≡ ok k = ground arith in
    ap (λ ds. parse_from 0 (map (λ d. 48 + d) ds)) (digits_10-last k (omega arith))
    ∙ ap (parse_from 0) (map-snoc (digits_10 (k / 10)) (k % 10))
    ∙ parse_from-snoc 0 (map (λ d. 48 + d) (digits_10 (k / 10))) (48 + k % 10)
    ∙ ap (λ r. r >>= λ w. parse_next w (48 + k % 10)) before
    ∙ read

parse_uint-snoc : (cs : Bytes) (c : ℕ) → parse_uint (cs ++ (c ∷ [])) ≡ parse_from 0 (cs ++ (c ∷ []))
unfolding parse_uint
parse_uint-snoc [] c = refl
parse_uint-snoc (d ∷ cs) c = refl

parse_uint-zero : parse_uint (48 ∷ []) ≡ ok 0
unfolding parse_uint parse_from parse_next
parse_uint-zero = refl

parse_uint-text_of : (n : ℕ) → n < 2 ^ 64 → parse_uint (text_of n) ≡ ok n
unfolding text_of
parse_uint-text_of zero small = parse_uint-zero
parse_uint-text_of (suc n) small =
    let k = suc n in
    let ends =
      ap (map (λ d. 48 + d)) (digits_10-last k (omega arith))
      ∙ map-snoc (digits_10 (k / 10)) (k % 10) in
    ap parse_uint (text_of-suc n ∙ ends)
    ∙ parse_uint-snoc (map (λ d. 48 + d) (digits_10 (k / 10))) (48 + k % 10)
    ∙ ap (parse_from 0) (sym ends)
    ∙ parse-digits k k (omega arith) small

-- No text of an integer has a comma.
int_text_of-AreAbove : (h : ℤ) → AreAbove 44 (int_text_of h)
unfolding int_text_of
int_text_of-AreAbove (pos n) = All-map (λ c k. omega arith) (text_of n) (text_of-AreAbove n)
int_text_of-AreAbove (negsuc n) =
    (omega arith, All-map (λ c k. omega arith) (text_of (suc n)) (text_of-AreAbove (suc n)))

split_comma-append :
    (cs rest : Bytes) → AreAbove 44 cs → split_comma (cs ++ (44 ∷ rest)) ≡ some (cs, rest)
unfolding split_comma
split_comma-append [] rest above = refl
split_comma-append (c ∷ cs) rest above =
    let other : eqb c 44 ≡ false = let k = above.0 in ground arith in
    rw (other, split_comma-append cs rest above.1) refl

-- For a height that mitum reads back from its decimal text and an index below 2^64, `parseOffset`
-- of what `buildOffset` wrote is that height and that index.
pub parse_offset-build_offset :
    {m : Mitum} {api : StateApi m} (dig : DigestApi api) (h : ℤ) (i : ℕ)
    → dig.height_from_string (int_text_of h) ≡ ok h
    → i < 2 ^ 64
    → parse_offset dig (build_offset h i) ≡ ok (h, i)
unfolding parse_offset build_offset read_parts
parse_offset-build_offset dig h i reads small =
    ap (read_parts dig) (split_comma-append (int_text_of h) (text_of i) (int_text_of-AreAbove h))
    ∙ ap (λ r. r >>= λ h'. parse_uint (text_of i) >>= λ i'. ok (h', i')) reads
    ∙ ap (λ r. r >>= λ i'. ok (h, i')) (parse_uint-text_of i small)
