-- ===== src/Digest/Search/Pages.antt =====
-- digest/handler_operation.go and digest/handler_account.go: the pages that the links called `next`
-- lead to.
use mitum_currency.Prelude.{
  ℕ, zero, suc, ◌≤◌, ◌<◌, ◌≡◌, refl, sym, ap, ◌∙◌, Option, none, some, List, [], ◌∷◌, ◌++◌, length,
  Result, ok, arith, ◌>>=◌, inl, inr, Bool-cases,
}
use mathlib.Core.List.{append_assoc}
use mitum_currency.Prelude.Int.{ℤ, pos, pos_part, leb_ℤ, ltb_ℤ}
use mitum_currency.Prelude.Slices.{take}
use mitum_currency.Prelude.Bytes.{Bytes}
use mitum_currency.Mitum.{Mitum}
use mitum_currency.State.{StateApi}
use mitum_currency.Digest.Driver.{DigestApi}
use mitum_currency.Digest.Database.{OperationDoc}
use mitum_currency.Digest.Offset.{build_offset}
use mitum_currency.Digest.Search.{search_limit, limited, next_offset, max_limit}

-- A limit under which a page of something is not empty.
abbrev pub IsPositive : Option ℕ → Type 0
IsPositive none = Unit {0}
IsPositive (some n) = 1 ≤ n

pub search_limit-IsPositive : (limit : ℤ) → IsPositive (search_limit limit)
unfolding search_limit
search_limit-IsPositive limit = elim (Bool-cases (leb_ℤ limit (pos 0))) [
  | inl unlimited ↦ rw unlimited tt
  | inr above ↦ elim (Bool-cases (ltb_ℤ (pos max_limit) limit)) [
    | inl high ↦ rw (above, high) (omega arith)
    | inr low ↦ rw (above, low) (let some_more : 1 ≤ pos_part limit = ground arith in some_more)
  ]
]

module _ {ℓ} {D : Type ℓ} where
  -- A page, and what it leaves.
  limited-split :
      (lim : Option ℕ) (x : D) (xs : List D)
      → IsPositive lim
      → (page rest : List D) × (limited lim (x ∷ xs) ≡ x ∷ page)
        × (page ++ rest ≡ xs)
        × (length rest ≤ length xs)
  limited-split none x xs h = (xs, [], refl, nothing_more xs, omega arith)
    where
      nothing_more : (ys : List D) → ys ++ [] ≡ ys
      nothing_more [] = refl
      nothing_more (y ∷ ys) = ap (λ zs. y ∷ zs) (nothing_more ys)
  limited-split (some zero) x xs h = absurd (omega arith)
  limited-split (some (suc n)) x xs h = (take n xs, rest n xs, refl, whole n xs, fewer n xs)
    where
      rest : ℕ → List D → List D
      rest zero ys = ys
      rest (suc k) [] = []
      rest (suc k) (y ∷ ys) = rest k ys

      whole : (k : ℕ) (ys : List D) → take k ys ++ rest k ys ≡ ys
      whole zero ys = refl
      whole (suc k) [] = refl
      whole (suc k) (y ∷ ys) = ap (λ zs. y ∷ zs) (whole k ys)

      fewer : (k : ℕ) (ys : List D) → length (rest k ys) ≤ length ys
      fewer zero ys = omega arith
      fewer (suc k) [] = omega arith
      fewer (suc k) (y ∷ ys) = let less = fewer k ys in omega arith

  limited-[] : (lim : Option ℕ) → IsPositive lim → limited {D = D} lim [] ≡ []
  limited-[] none h = refl
  limited-[] (some zero) h = absurd (omega arith)
  limited-[] (some (suc n)) h = refl

module _ {m : Mitum} {api : StateApi m} (dig : DigestApi api) where
  -- The last document of a page.
  next_offset-last :
      (x : OperationDoc dig) (xs : List (OperationDoc dig))
      → (front : List (OperationDoc dig)) × (d : OperationDoc dig) × (x ∷ xs ≡ front ++ (d ∷ []))
        × (next_offset dig (x ∷ xs) ≡ build_offset d.height d.index)
  unfolding next_offset
  next_offset-last x [] = ([], x, refl, refl)
  next_offset-last x (y ∷ ys) =
      let (front, d, same, next) = next_offset-last y ys in
      (x ∷ front, d, ap (λ zs. x ∷ zs) same, next)

  -- An empty page is the last one.
  unfoldable pub with_rest :
      List (OperationDoc dig) → Result (List (OperationDoc dig)) → Result (List (OperationDoc dig))
  with_rest [] next = ok []
  with_rest (d ∷ ds) next = do rest ← next; ok ((d ∷ ds) ++ rest)

  module _ (query : Bytes → Result (List (OperationDoc dig))) where
    -- The pages from an offset on, until one is empty.
    unfoldable pub read_pages : ℕ → Bytes → Result (List (OperationDoc dig))
    read_pages zero offset = ok []
    read_pages (suc n) offset = do
      page ← query offset
      with_rest page (read_pages n (next_offset dig page))

    -- Every position of `all` is answered by a page of what comes after it.
    abbrev pub Answers : Option ℕ → List (OperationDoc dig) → Type 0
    Answers lim all =
        (front : List (OperationDoc dig)) (d : OperationDoc dig) (rest : List (OperationDoc dig))
        → front ++ (d ∷ rest) ≡ all
        → query (build_offset d.height d.index) ≡ ok (limited lim rest)

    pub read_pages-rest :
        (lim : Option ℕ) (all : List (OperationDoc dig))
        → IsPositive lim
        → Answers lim all
        → (n : ℕ) (before xs : List (OperationDoc dig)) (offset : Bytes) → before ++ xs ≡ all
        → query offset ≡ ok (limited lim xs)
        → length xs < n
        → read_pages n offset ≡ ok xs
    unfolding read_pages with_rest
    read_pages-rest lim all p answers zero before xs offset here asked few = absurd (omega arith)
    read_pages-rest lim all p answers (suc n) before [] offset here asked few =
        rw (asked, limited-[] {D = OperationDoc dig} lim p) refl
    read_pages-rest lim all p answers (suc n) before (x ∷ xs) offset here asked few =
        let (page, rest, shown, left, fewer) = limited-split lim x xs p in
        let (front, d, last, next) = next_offset-last x page in
        let spread : (before ++ front) ++ (d ∷ rest) ≡ all =
          append_assoc before front (d ∷ rest)
          ∙ ap (λ ys. before ++ ys) (sym (append_assoc front (d ∷ []) rest))
          ∙ ap (λ ys. before ++ (ys ++ rest)) (sym last)
          ∙ ap (λ ys. before ++ (x ∷ ys)) left
          ∙ here in
        let onward : (before ++ (x ∷ page)) ++ rest ≡ all =
          append_assoc before (x ∷ page) rest ∙ ap (λ ys. before ++ (x ∷ ys)) left ∙ here in
        let more =
          read_pages-rest lim all p answers n (before ++ (x ∷ page)) rest
            (next_offset dig (x ∷ page)) onward
            (ap query next ∙ answers (before ++ front) d rest spread) (omega arith) in
        rw (asked, shown, more) (ap (λ ys. ok (x ∷ ys)) left)
