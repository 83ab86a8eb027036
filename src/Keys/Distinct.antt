-- ===== src/Keys/Distinct.antt =====
-- The Go maps by which loops of the package find what comes twice: no text of the list was met before,
-- and none comes again.
use mitum_currency.Prelude.{
  ◌≡◌, ◌≢◌, ◌↔◌, ap, map, false, List, [], ◌∷◌, arith, All, All-map, All-zip,
}
use mitum_currency.Prelude.Bytes.{Bytes, bytes_eq_iff}
use mitum_currency.Keys.{contains_text}

-- What such a loop tests: each text is new to the texts before it.
abbrev pub AllNew : List Bytes → List Bytes → Type 0
AllNew founds [] = Unit
AllNew founds (x ∷ xs) = (contains_text x founds ≡ false) × AllNew (x ∷ founds) xs

abbrev pub AreDistinct : List Bytes → Type 0
AreDistinct [] = Unit
AreDistinct (x ∷ xs) = All (λ y. x ≢ y) xs × AreDistinct xs

contains_text_iff :
    (t : Bytes) (ss : List Bytes) → (contains_text t ss ≡ false) ↔ All (λ s. s ≢ t) ss
unfolding contains_text
contains_text_iff t [] = ground arith
contains_text_iff t (s ∷ ss) = ground (arith, bytes_eq_iff s t, contains_text_iff t ss)

-- Such a loop passes exactly the lists without repetition that hold nothing met before.
pub AllNew-iff :
    (founds xs : List Bytes)
    → AllNew founds xs ↔ (All (λ x. All (λ s. s ≢ x) founds) xs × AreDistinct xs)
AllNew-iff founds [] = (λ h. (tt, tt), λ h. tt)
AllNew-iff founds (x ∷ xs) = (
  λ h.
      let (new, distinct) = (AllNew-iff (x ∷ founds) xs).0 h.1 in
      (
        ((contains_text_iff x founds).0 h.0, All-map (λ y k. k.1) xs new),
        (All-map (λ y k. k.0) xs new, distinct),
      ),
  λ h. (
    (contains_text_iff x founds).1 h.0.0,
    (AllNew-iff (x ∷ founds) xs).1
        (All-zip (λ y. x ≢ y) (λ y. All (λ s. s ≢ y) founds) xs h.1.0 h.0.1, h.1.1),
  ),
)

pub AllNew-distinct : (xs : List Bytes) → AllNew [] xs ↔ AreDistinct xs
AllNew-distinct xs = (λ h. ((AllNew-iff [] xs).0 h).1, λ h. (AllNew-iff [] xs).1 (nothing xs, h))
  where
    nothing : (xs : List Bytes) → All (λ x. All (λ s. s ≢ x) []) xs
    nothing [] = tt
    nothing (x ∷ xs) = (tt, nothing xs)

module _ {A : Type 0} (g : A → Bytes) (f : Bytes → Bytes)
    (injective : (x y : Bytes) → f x ≡ f y → x ≡ y) where
  All-apart-map :
      (a : A) (xs : List A)
      → All (λ y. f (g a) ≢ y) (map (λ x. f (g x)) xs) ↔ All (λ y. g a ≢ y) (map g xs)
  All-apart-map a [] = (λ h. h, λ h. h)
  All-apart-map a (x ∷ xs) = (
    λ h. (λ e. h.0 (ap f e), (All-apart-map a xs).0 h.1),
    λ h. (λ e. h.0 (injective (g a) (g x) e), (All-apart-map a xs).1 h.1),
  )

  -- Keys made of texts by an injection repeat no sooner than the texts.
  pub AreDistinct-map : (xs : List A) → AreDistinct (map (λ x. f (g x)) xs) ↔ AreDistinct (map g xs)
  AreDistinct-map [] = (λ h. h, λ h. h)
  AreDistinct-map (x ∷ xs) = (
    λ h. ((All-apart-map x xs).0 h.0, (AreDistinct-map xs).0 h.1),
    λ h. ((All-apart-map x xs).1 h.0, (AreDistinct-map xs).1 h.1),
  )
