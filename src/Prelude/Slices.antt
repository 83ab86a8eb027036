-- ===== src/Prelude/Slices.antt =====
-- Parts of lists: the first entries, the ones after them, a slice, and those that pass a test.
use mathlib.Core.List.{Perm, filter}
use mathlib.Core.Logic.{ite}
use mathlib.Core.List.Perm
use mitum_currency.Prelude.{
  ℕ, zero, suc, ◌+◌, ◌-◌, ◌≤◌, ◌≡◌, refl, ap, Bool, true, false, List, [], ◌∷◌, ◌++◌, arith, length,
  All, subst, if◌then◌else◌, Bool-cases, inl, inr,
}

is_true : (b : Bool) → Dec (b ≡ true)
is_true true = yes refl
is_true false = no (λ e. cc)

module _ {ℓ} {A : Type ℓ} where
  abbrev pub take : ℕ → List A → List A
  take zero xs = []
  take (suc n) [] = []
  take (suc n) (x ∷ xs) = x ∷ take n xs

  abbrev pub drop : ℕ → List A → List A
  drop zero xs = xs
  drop (suc n) [] = []
  drop (suc n) (x ∷ xs) = drop n xs

  -- `xs[s:e]`
  abbrev pub slice : ℕ → ℕ → List A → List A
  slice s e xs = take (e - s) (drop s xs)

  -- The entries that pass a test.
  abbrev pub keep : (A → Bool) → List A → List A
  keep f [] = []
  keep f (x ∷ xs) = if f x then x ∷ keep f xs else keep f xs

  pub take-all : (n : ℕ) (xs : List A) → length xs ≤ n → take n xs ≡ xs
  take-all zero [] h = refl
  take-all zero (x ∷ xs) h = absurd (omega arith)
  take-all (suc n) [] h = refl
  take-all (suc n) (x ∷ xs) h = ap (λ ys. x ∷ ys) (take-all n xs (omega arith))

  take-[] : (n : ℕ) → take n [] ≡ []
  take-[] zero = refl
  take-[] (suc n) = refl

  take-append_drop :
      (s d e : ℕ) (xs : List A) → e ≡ s + d → take s xs ++ take d (drop s xs) ≡ take e xs
  take-append_drop zero d e xs h = ap (λ n. take n xs) (omega arith)
  take-append_drop (suc s) d zero xs h = absurd (omega arith)
  take-append_drop (suc s) d (suc e) [] h = take-[] d
  take-append_drop (suc s) d (suc e) (x ∷ xs) h =
      ap (λ ys. x ∷ ys) (take-append_drop s d e xs (omega arith))

  -- A longer prefix is a shorter one and the slice between them.
  pub take-slice : (s e : ℕ) (xs : List A) → s ≤ e → take s xs ++ slice s e xs ≡ take e xs
  take-slice s e xs h = take-append_drop s (e - s) e xs (omega arith)

  -- Equal lists are permuted.
  pub Perm-path : {xs ys : List A} → xs ≡ ys → Perm xs ys
  Perm-path {xs} e = subst (Perm xs) e (Perm.refl xs)

  -- The same by the library's `filter`.
  keep-filter : (f : A → Bool) (xs : List A) → keep f xs ≡ filter (λ x. is_true (f x)) xs
  unfolding is_true
  keep-filter f [] = refl
  keep-filter f (x ∷ xs) = go (f x) (keep-filter f xs)
    where
      go :
          (b : Bool)
          → keep f xs ≡ filter (λ y. is_true (f y)) xs
          → (if b then x ∷ keep f xs else keep f xs)
            ≡ ite {C = List A}
                (is_true b)
                (x ∷ filter (λ y. is_true (f y)) xs)
                (filter (λ y. is_true (f y)) xs)
      go true h = ap (λ ys. x ∷ ys) h
      go false h = h

  -- Permuted lists keep permuted entries.
  pub keep-perm : (f : A → Bool) {xs ys : List A} → Perm xs ys → Perm (keep f xs) (keep f ys)
  keep-perm f {xs} {ys} p =
      rw (keep-filter f xs, keep-filter f ys) (Perm.filter (λ x. is_true (f x)) p)

  pub keep-append : (f : A → Bool) (xs ys : List A) → keep f (xs ++ ys) ≡ keep f xs ++ keep f ys
  keep-append f [] ys = refl
  keep-append f (x ∷ xs) ys = elim (Bool-cases (f x)) [
    | inl pass ↦ rw pass (ap (λ zs. x ∷ zs) (keep-append f xs ys))
    | inr fail ↦ rw fail (keep-append f xs ys)
  ]

  pub keep-none : (f : A → Bool) (xs : List A) → All (λ x. f x ≡ false) xs → keep f xs ≡ []
  keep-none f [] h = refl
  keep-none f (x ∷ xs) h = rw (h.0) (keep-none f xs h.1)

  pub keep-all : (f : A → Bool) (xs : List A) → All (λ x. f x ≡ true) xs → keep f xs ≡ xs
  keep-all f [] h = refl
  keep-all f (x ∷ xs) h = rw (h.0) (ap (λ zs. x ∷ zs) (keep-all f xs h.1))

  pub keep-keep : (f : A → Bool) (xs : List A) → keep f (keep f xs) ≡ keep f xs
  keep-keep f [] = refl
  keep-keep f (x ∷ xs) = elim (Bool-cases (f x)) [
    | inl pass ↦ rw (pass, pass) (ap (λ zs. x ∷ zs) (keep-keep f xs))
    | inr fail ↦ rw fail (keep-keep f xs)
  ]
