-- ===== src/Keys/Sorting.antt =====
-- `sort.Slice` and `bytes.Compare`, as currency/keys.go uses them. Insertion puts keys of equal
-- bytes in their order; `sort.Slice` may put them in another.
use mitum_currency.Prelude.{Bool, true, false, ◌||◌, ◌&&◌, List, [], ◌∷◌, ltb, eqb, if◌then◌else◌}
use mitum_currency.Prelude.Bytes.{Bytes}

-- `bytes.Compare(a, b) < 0`
unfoldable pub bytes_lt : Bytes → Bytes → Bool
bytes_lt [] [] = false
bytes_lt [] (y ∷ ys) = true
bytes_lt (x ∷ xs) [] = false
bytes_lt (x ∷ xs) (y ∷ ys) = ltb x y || (eqb x y && bytes_lt xs ys)

module _ {ℓ} {A : Type ℓ} (less : A → A → Bool) where
  unfoldable pub insert_by : A → List A → List A
  insert_by x [] = x ∷ []
  insert_by x (y ∷ ys) = if less y x then y ∷ insert_by x ys else x ∷ y ∷ ys

  unfoldable pub sort_by : List A → List A
  unfolding insert_by
  sort_by [] = []
  sort_by (x ∷ xs) = insert_by x (sort_by xs)
