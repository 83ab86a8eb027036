-- ===== src/Keys/Threshold.antt =====
-- currency/keys.go: what `checkThreshold` accepts, and that valid keys can always pass it.
use mitum_currency.Prelude.{
  ℕ, ◌+◌, ◌*◌, ◌%◌, ◌≤◌, ◌<◌, ◌≡◌, ◌≢◌, ◌↔◌, ap, ◌∙◌, inl, inr, Option, none, some, List, [], ◌∷◌,
  arith, ok, Option-cases, length, All, >>=-eq-ok, guard-eq-ok,
}
use mitum_currency.Mitum.{Mitum}
use mitum_currency.Keys.{Key, Keys, uint_mod, find_key, sum_weights, check_threshold}

module _ {m : Mitum} where
  abbrev pub key_weight : Option (Key m) → ℕ
  key_weight none = 0
  key_weight (some ky) = ky.w

  -- The weight that a signer has: none if it is not among the keys.
  abbrev pub weight : List (Key m) → m.Publickey → ℕ
  weight kys s = key_weight (find_key s kys)

  abbrev pub IsKnown : List (Key m) → m.Publickey → Type 0
  IsKnown kys s = find_key s kys ≢ none

  -- The sum of the signers' weights, each signature counted.
  unfoldable pub signed_weight : List (Key m) → List m.Publickey → ℕ
  signed_weight kys [] = 0
  signed_weight kys (s ∷ fs) = weight kys s + signed_weight kys fs

  abbrev pub IsWeighted : List (Key m) → Type 0
  IsWeighted kys = All (λ ky. ky.w ≤ 100) kys

  weight-le : (kys : List (Key m)) (s : m.Publickey) → IsWeighted kys → weight kys s ≤ 100
  unfolding find_key
  weight-le [] s h = omega arith
  weight-le (x ∷ kys) s h = ground (arith, weight-le kys s h.1)

  -- With all signers known the loop adds their weights up, and `uint` does not wrap round.
  sum_weights-known :
      (sum : ℕ) (kys : List (Key m)) (fs : List m.Publickey)
      → IsWeighted kys
      → sum + 100 * length fs < uint_mod
      → All (IsKnown kys) fs
      → sum_weights sum fs kys ≡ ok (sum + signed_weight kys fs)
  unfolding sum_weights signed_weight
  sum_weights-known sum kys [] h b k = ap ok (omega arith)
  sum_weights-known sum kys (s ∷ fs) h b k = elim (Option-cases (find_key s kys)) [
    | inl none_found ↦ absurd (k.0 none_found)
    | inr (ky, found) ↦
        let wl : weight kys s ≤ 100 = weight-le kys s h in
        let we : weight kys s ≡ ky.w = ap key_weight found in
        let small : (sum + ky.w) % uint_mod ≡ sum + ky.w = omega arith in
        rw (found, sum_weights, small)
          (sum_weights-known (sum + ky.w) kys fs h (omega arith) k.1 ∙ ap ok (omega arith))
  ]

  -- An unknown signer stops it.
  sum_weights-ok :
      (sum : ℕ) (kys : List (Key m)) (fs : List m.Publickey) {v : ℕ}
      → sum_weights sum fs kys ≡ ok v
      → All (IsKnown kys) fs
  unfolding sum_weights
  sum_weights-ok sum kys [] e = tt
  sum_weights-ok sum kys (s ∷ fs) e = elim (Option-cases (find_key s kys)) [
    | inl none_found ↦ absurd (let k = rw (none_found, sum_weights) at e in cc)
    | inr (ky, found) ↦
        (λ n. cc, sum_weights-ok ((sum + ky.w) % uint_mod) kys fs (rw (found, sum_weights) at e))
  ]

  -- For keys of weight at most 100 and so few signatures that the sum of weights does not wrap
  -- round, `checkThreshold` passes exactly when every signer is one of the keys and the weights of
  -- all signatures, each counted, reach the threshold.
  pub check_threshold_iff :
      (fs : List m.Publickey) (ks : Keys m)
      → IsWeighted ks.keys
      → 100 * length fs < uint_mod
      → (check_threshold fs ks ≡ ok tt)
        ↔ (All (IsKnown ks.keys) fs × (ks.threshold ≤ signed_weight ks.keys fs))
  unfolding check_threshold
  check_threshold_iff fs ks h b = (passes, accepted)
    where
      passes :
          check_threshold fs ks ≡ ok tt
          → All (IsKnown ks.keys) fs × (ks.threshold ≤ signed_weight ks.keys fs)
      passes e =
          let (v, e₁, e₂) = >>=-eq-ok (sum_weights 0 fs ks.keys) _ e in
          let known = sum_weights-ok 0 ks.keys fs e₁ in
          let s = sum_weights-known 0 ks.keys fs h (omega arith) known in
          (known, ground (arith, guard-eq-ok _ _ e₂))

      accepted :
          All (IsKnown ks.keys) fs × (ks.threshold ≤ signed_weight ks.keys fs)
          → check_threshold fs ks ≡ ok tt
      accepted (known, enough) =
          rw (sum_weights-known 0 ks.keys fs h (omega arith) known) (ground arith)
