-- ===== src/Prelude/Sums.antt =====
-- Sums over the entries of a map that stand under one key.
use mitum_currency.Prelude.{
  Option, none, some, [], ◌∷◌, ◌≡◌, arith, ◌==◌, if◌then◌else◌, inl, inr, Bool-cases, eq_of_beq, Eq,
}
use mitum_currency.Prelude.Int.{ℤ, pos, ◌+ℤ◌, int_laws}
use mitum_currency.Prelude.Map.{Map, lookup, insert}

-- What a value under the key `c` counts for the key `k`.
unfoldable pub at_key {ℓ} : {K : Type ℓ} ⦃e : Eq K⦄ → K → K → ℤ → ℤ
at_key k c v = if c == k then v else pos 0

pub at_key-zero {ℓ} : {K : Type ℓ} ⦃e : Eq K⦄ (k c : K) → at_key k c (pos 0) ≡ pos 0
unfolding at_key
at_key-zero k c = ground arith

pub at_key-add {ℓ} :
    {K : Type ℓ} ⦃e : Eq K⦄ (k c : K) (a b : ℤ) → at_key k c (a +ℤ b) ≡ at_key k c a +ℤ at_key k c b
unfolding at_key
at_key-add k c a b = elim (Bool-cases (c == k)) [ inl h ↦ rw h | inr h ↦ rw h (omega int_laws) ]

abbrev pub measure_at {ℓ} : {V : Type ℓ} → (V → ℤ) → Option V → ℤ
measure_at p none = pos 0
measure_at p (some v) = p v

module _ {ℓ κ} {K : Type ℓ} {V : Type κ} ⦃e : Eq K⦄ (p : V → ℤ) where
  unfoldable pub sum_at : K → Map K V → ℤ
  sum_at k [] = pos 0
  sum_at k ((c, v) ∷ m) = at_key k c (p v) +ℤ sum_at k m

  -- A write adds the difference to the entry that was there; an absent one counts as zero.
  pub sum_at-insert :
      (k c : K) (v : V) (d : ℤ) (m : Map K V)
      → p v ≡ measure_at p (lookup c m) +ℤ d
      → sum_at k (insert c v m) ≡ sum_at k m +ℤ at_key k c d
  unfolding sum_at
  sum_at-insert k c v d [] h = rw (h, at_key-add k c (pos 0) d, at_key-zero k c) (omega int_laws)
  sum_at-insert k c v d ((i, w) ∷ m) h = elim (Bool-cases (i == c)) [
    | inl same ↦
        let h' : p v ≡ p w +ℤ d = rw (same, measure_at) at h in
        rw (same, sum_at, h', at_key-add k i (p w) d, eq_of_beq i c same) (omega int_laws)
    | inr other ↦
        let h' : p v ≡ measure_at p (lookup c m) +ℤ d = rw other at h in
        rw (other, sum_at, sum_at-insert k c v d m h') (omega int_laws)
  ]
