-- ===== src/Prelude/Map.antt =====
-- Go maps: association lists, with `m[k] = v` replacing the entry of `k` or adding one. A `range`
-- over a map meets the entries in the list's order.
use mitum_currency.Prelude.{
  ◌≡◌, refl, Bool, true, false, Option, none, some, List, [], ◌∷◌, Eq, ◌==◌, if◌then◌else◌, eq_refl,
  ◌≢◌, arith, Bool-cases, inl, inr, subst, sym, eq_of_beq,
}

abbrev pub Map {ℓ κ} : Type ℓ → Type κ → Type (ℓ ⊔ κ)
Map K V = List (K × V)

module _ {ℓ κ} {K : Type ℓ} {V : Type κ} ⦃e : Eq K⦄ where
  abbrev pub lookup : K → Map K V → Option V
  lookup k [] = none
  lookup k ((j, v) ∷ m) = if j == k then some v else lookup k m

  abbrev pub contains : K → Map K V → Bool
  contains k m = elim (lookup k m) [ none ↦ false | some _ ↦ true ]

  abbrev pub insert : K → V → Map K V → Map K V
  insert k v [] = (k, v) ∷ []
  insert k v ((j, w) ∷ m) = if j == k then (j, v) ∷ m else (j, w) ∷ insert k v m

  abbrev pub lookup_or : K → Map K V → V → V
  lookup_or k m d = elim (lookup k m) [ none ↦ d | some v ↦ v ]

  pub lookup-insert :
      (k j : K) (v : V) (m : Map K V)
      → lookup j (insert k v m) ≡ (if k == j then some v else lookup j m)
  lookup-insert k j v [] = refl
  lookup-insert k j v ((i, w) ∷ m) =
      ground (arith, e.beq_iff k j, e.beq_iff i k, e.beq_iff i j, lookup-insert k j v m)

  pub lookup-insert_self : (k : K) (v : V) (m : Map K V) → lookup k (insert k v m) ≡ some v
  lookup-insert_self k v m = ground (arith, lookup-insert k k v m, eq_refl k)

  pub lookup-insert_ne :
      (k j : K) (v : V) (m : Map K V) → k ≢ j → lookup j (insert k v m) ≡ lookup j m
  lookup-insert_ne k j v m h = ground (arith, lookup-insert k j v m, e.beq_iff k j)

module _ {ℓ κ μ} {K : Type ℓ} {V : Type κ} ⦃e : Eq K⦄ (P : K → V → Type μ) where
  -- A statement about every entry.
  abbrev pub Entries : Map K V → Type μ
  Entries [] = Unit
  Entries ((k, v) ∷ m) = P k v × Entries m

  pub insert-Entries : (k : K) (v : V) (m : Map K V) → P k v → Entries m → Entries (insert k v m)
  insert-Entries k v [] p h = (p, tt)
  insert-Entries k v ((j, w) ∷ m) p h = elim (Bool-cases (j == k)) [
    | inl same ↦ rw same (subst (λ i. P i v) (sym (eq_of_beq j k same)) p, h.1)
    | inr other ↦ rw other (h.0, insert-Entries k v m p h.1)
  ]

  pub lookup-Entries : (k : K) (m : Map K V) {v : V} → Entries m → lookup k m ≡ some v → P k v
  lookup-Entries k [] h f = absurd (cc)
  lookup-Entries k ((j, w) ∷ m) {v} h f = elim (Bool-cases (j == k)) [
    | inl same ↦
        let g : some w ≡ some v = rw same at f in
        let q : w ≡ v = cc in subst (λ i. P i v) (eq_of_beq j k same) (subst (P j) q h.0)
    | inr other ↦ lookup-Entries k m h.1 (rw other at f)
  ]
