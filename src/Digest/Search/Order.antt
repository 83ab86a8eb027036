-- ===== src/Digest/Search/Order.antt =====
-- digest/database.go: positions of operations, by height and index, and what lies behind them.
use mitum_currency.Prelude.{
  ltb, if◌then◌else◌, ◌≡◌, refl, Bool, true, false, List, [], ◌∷◌, ◌++◌, All, arith, ◌&&◌,
  Bool-cases, inl, inr,
}
use mitum_currency.Prelude.Slices.{keep, keep-all}
use mitum_currency.Prelude.Int.{ltb_ℤ, leb_ℤ}
use mitum_currency.Mitum.{Mitum}
use mitum_currency.State.{StateApi}
use mitum_currency.Digest.Driver.{DigestApi}
use mitum_currency.Digest.Database.{OperationDoc}
use mitum_currency.Digest.Search.{beyond, selects}

module _ {ℓ} {A : Type ℓ} where
  pub keep-and : (f g : A → Bool) (xs : List A) → keep (λ x. f x && g x) xs ≡ keep g (keep f xs)
  keep-and f g [] = refl
  keep-and f g (x ∷ xs) = ground (arith, keep-and f g xs)

  pub keep-same : (f g : A → Bool) (xs : List A) → ((x : A) → f x ≡ g x) → keep f xs ≡ keep g xs
  keep-same f g [] same = refl
  keep-same f g (x ∷ xs) same =
      let here = same x in let more = keep-same f g xs same in ground arith

  pub keep-All {κ} : (P : A → Type κ) (f : A → Bool) (xs : List A) → All P xs → All P (keep f xs)
  keep-All P f [] h = tt
  keep-All P f (x ∷ xs) h = elim (Bool-cases (f x)) [
    | inl pass ↦ rw pass (h.0, keep-All P f xs h.1)
    | inr fail ↦ rw fail (keep-All P f xs h.1)
  ]

  pub All-middle {κ} :
      (P : A → Type κ) (xs : List A) (y : A) (ys : List A) → All P (xs ++ (y ∷ ys)) → P y
  All-middle P [] y ys h = h.0
  All-middle P (x ∷ xs) y ys h = All-middle P xs y ys h.1

module _ {m : Mitum} {api : StateApi m} (dig : DigestApi api) where
  -- The second document comes after the first one, by height and then by index; in reverse, the
  -- first one after the second.
  abbrev pub comes_after : OperationDoc dig → OperationDoc dig → Bool
  comes_after d e =
      if ltb_ℤ d.height e.height then true else leb_ℤ d.height e.height && ltb d.index e.index

  abbrev pub follows : Bool → OperationDoc dig → OperationDoc dig → Bool
  follows false d e = comes_after d e
  follows true d e = comes_after e d

  -- Documents in the order of a search, no two at one position.
  abbrev pub IsOrdered : Bool → List (OperationDoc dig) → Type 0
  IsOrdered reverse [] = Unit {0}
  IsOrdered reverse (d ∷ ds) = All (λ e. follows reverse d e ≡ true) ds × IsOrdered reverse ds

  follows_asym :
      (reverse : Bool) (d e : OperationDoc dig)
      → follows reverse d e ≡ true
      → follows reverse e d ≡ false
  follows_asym true d e h = ground arith
  follows_asym false d e h = ground arith

  follows_self : (reverse : Bool) (d : OperationDoc dig) → follows reverse d d ≡ false
  follows_self true d = ground arith
  follows_self false d = ground arith

  -- The filter finds what comes after a position.
  pub selects-beyond :
      (reverse : Bool) (d e : OperationDoc dig)
      → selects dig (beyond reverse d.height d.index) e ≡ follows reverse d e
  unfolding selects beyond
  selects-beyond true d e = ground arith
  selects-beyond false d e = ground arith

  -- What lies behind a document comes after it.
  pub keep-follows :
      (reverse : Bool) (xs : List (OperationDoc dig)) (d : OperationDoc dig)
      (ys : List (OperationDoc dig))
      → IsOrdered reverse (xs ++ (d ∷ ys))
      → keep (follows reverse d) (xs ++ (d ∷ ys)) ≡ ys
  keep-follows reverse [] d ys h = rw (follows_self reverse d) (keep-all (follows reverse d) ys h.0)
  keep-follows reverse (x ∷ xs) d ys h =
      let behind = All-middle (λ e. follows reverse x e ≡ true) xs d ys h.0 in
      rw (follows_asym reverse x d behind) (keep-follows reverse xs d ys h.1)

  pub keep-IsOrdered :
      (reverse : Bool) (f : OperationDoc dig → Bool) (xs : List (OperationDoc dig))
      → IsOrdered reverse xs
      → IsOrdered reverse (keep f xs)
  keep-IsOrdered reverse f [] h = tt
  keep-IsOrdered reverse f (x ∷ xs) h = elim (Bool-cases (f x)) [
    | inl pass ↦
        rw pass
          (keep-All (λ e. follows reverse x e ≡ true) f xs h.0, keep-IsOrdered reverse f xs h.1)
    | inr fail ↦ rw fail (keep-IsOrdered reverse f xs h.1)
  ]
