-- ===== src/Feeer/Bounds.antt =====
-- currency/feeer.go: the limits within which a share of an amount is charged.
use Prim.Native.Nat.{Ordering}
use mitum_currency.Prelude.{
  true, false, not, ◌||◌, ok, ◌≡◌, ap, ◌∙◌, arith, inl, inr, Bool-cases, with_ok, subst, guard,
  guard-eq-ok, plain, invalid,
}
use mitum_currency.Prelude.Int.{◌≤ℤ◌}
use mitum_currency.Mitum.{Mitum}
use mitum_currency.Keys.{address_is_valid}
use mitum_currency.Big.{
  Big, nil, int, is_zero, over_nil, equal, compare_big, is_lt, is_gt, mul_float64,
}
use mitum_currency.Big.Laws.{val, compare_big-ge}
use mitum_currency.Big.Float.{is_zero_float, is_one_float, under_zero_float, over_one_float}
use mitum_currency.Feeer.{
  RatioFeeer, unlimited_max_fee_amount, clamp_fee, ratio_fee, is_unlimited, limits_are_valid,
  ratio_is_valid,
}

-- What a comparison that is not `gt` says.
compare_big-le :
    (a b : Big) {o : Ordering}
    → compare_big a b ≡ ok o
    → is_gt o ≡ false
    → over_nil a ≡ true
    → val a ≤ℤ val b
unfolding compare_big over_nil
compare_big-le nil b e h k = cc
compare_big-le (int a) nil e h k = cc
compare_big-le (int a) (int b) e h k = ground arith

between-le :
    (a b c : Big) {o p : Ordering}
    → compare_big a b ≡ ok o
    → is_lt o ≡ false
    → compare_big a c ≡ ok p
    → is_gt p ≡ false
    → val a ≤ℤ val c
unfolding compare_big
between-le nil b c e h f k = ground arith
between-le (int a) b nil e h f k = cc
between-le (int a) b (int c) e h f k = ground arith

-- The limits of a feeer with a maximum are in order.
limits-le :
    (fa : RatioFeeer)
    → limits_are_valid fa ≡ ok tt
    → over_nil fa.min ≡ true
    → val fa.min ≤ℤ val fa.max
unfolding limits_are_valid
limits-le fa e n = with_ok (guard (over_nil fa.max) (plain invalid)) _ e λ u h r₁.
    with_ok (compare_big fa.min fa.max) _ r₁
      λ o c r₂. compare_big-le fa.min fa.max c (ground (arith, guard-eq-ok _ _ r₂)) n

-- Limits, as `clamp_fee` keeps to them.
abbrev pub IsWithin : RatioFeeer → Big → Type 0
IsWithin fa f =
    (val fa.min ≤ℤ val f) × (equal fa.max unlimited_max_fee_amount ≡ ok false → val f ≤ℤ val fa.max)

clamp_fee-IsWithin :
    (fa : RatioFeeer) (f : Big) {g : Big}
    → (equal fa.max unlimited_max_fee_amount ≡ ok false → val fa.min ≤ℤ val fa.max)
    → clamp_fee fa f ≡ ok g
    → IsWithin fa g
unfolding clamp_fee is_unlimited
clamp_fee-IsWithin fa f {g} le e = with_ok (compare_big f fa.min) _ e λ o c r₁.
    elim (Bool-cases (is_lt o)) [
      | inl below ↦
          let shape : fa.min ≡ g = let r = rw below at r₁ in cc in
          subst (IsWithin fa) shape (omega arith, le)
      | inr above ↦ with_ok (equal fa.max unlimited_max_fee_amount) _ (rw above at r₁) λ u unl r₂.
          elim (Bool-cases u) [
            | inl none ↦
                let shape : f ≡ g = let r = rw none at r₂ in cc in
                subst (IsWithin fa) shape
                  (compare_big-ge f fa.min c above, λ k. absurd (let t : u ≡ false = cc in cc))
            | inr max ↦ with_ok (compare_big f fa.max) _ (rw max at r₂) λ p d r₃.
                elim (Bool-cases (is_gt p)) [
                  | inl over ↦
                      let shape : fa.max ≡ g = let r = rw over at r₃ in cc in
                      subst (IsWithin fa) shape (le (unl ∙ ap ok max), λ k. omega arith)
                  | inr under ↦
                      let shape : f ≡ g = let r = rw under at r₃ in cc in
                      subst (IsWithin fa) shape (
                        compare_big-ge f fa.min c above,
                        λ k. between-le f fa.min fa.max c above d under,
                      )
                ]
          ]
    ]

-- If a ratio feeer is valid and its ratio is neither zero nor one, the fee that it charges for an
-- amount that is not zero, when it charges one, is at least its minimum and, unless its maximum is
-- the unlimited one, at most its maximum.
pub ratio_fee-IsWithin :
    (m : Mitum) (fa : RatioFeeer) (a : Big) {f : Big}
    → ratio_is_valid m fa ≡ ok tt
    → is_zero_float fa.ratio ≡ false
    → is_one_float fa.ratio ≡ false
    → is_zero a ≡ false
    → ratio_fee fa a ≡ ok f
    → IsWithin fa f
unfolding ratio_fee ratio_is_valid
ratio_fee-IsWithin m fa a valid some_ratio not_all some_amount e =
    with_ok (address_is_valid m fa.receiver) _ valid λ u v r₁.
      with_ok (guard (not (under_zero_float fa.ratio || over_one_float fa.ratio)) (plain invalid)) _
        r₁
        λ u' v' r₂. with_ok (guard (over_nil fa.min) (plain invalid)) _ r₂ λ u'' v'' r₃.
          with_ok (equal fa.max unlimited_max_fee_amount) _ r₃ λ b eq r₄.
            with_ok (mul_float64 a fa.ratio) _ (rw (some_ratio, some_amount, not_all) at e)
              λ g product clamped.
                clamp_fee-IsWithin fa g
                  (λ k. limits-le fa (let n : b ≡ false = cc in rw n at r₄) (guard-eq-ok _ _ v''))
                  clamped
