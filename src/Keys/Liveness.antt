-- ===== src/Keys/Liveness.antt =====
-- currency/keys.go: `Keys.IsValid` lets no account be locked out: its own keys pass its threshold.
use mitum_currency.Prelude.{
  ℕ, suc, ◌+◌, ◌*◌, ◌%◌, ◌≤◌, ◌<◌, ◌≡◌, ◌≢◌, ◌↔◌, refl, sym, ap, ◌∙◌, true, false, none, some, List,
  [], ◌∷◌, map, arith, ok, length, All, All-map, All-zip,
}
use mitum_currency.Prelude.Bytes.{Bytes, bytes_eq, bytes_eq_iff}
use mitum_currency.Mitum.{Mitum}
use mitum_currency.Keys.{
  Key, Keys, uint_mod, find_key, check_threshold, total_weight, check_keys, keys_is_valid,
  key_is_valid, contains_text,
}
use mitum_currency.Keys.Threshold.{
  key_weight, IsKnown, IsWeighted, signed_weight, check_threshold_iff,
}

some_ne_none {ℓ} : {A : Type ℓ} {a : A} → some a ≢ none
some_ne_none e = cc

contains_text-cons :
    (t s : Bytes) (ss : List Bytes)
    → contains_text t (s ∷ ss) ≡ false
    → (bytes_eq s t ≡ false) × (contains_text t ss ≡ false)
unfolding contains_text
contains_text-cons t s ss h = ground arith

module _ {m : Mitum} where
  key_is_valid-weight : (ky : Key m) → key_is_valid ky ≡ ok tt → ky.w ≤ 100
  unfolding key_is_valid
  key_is_valid-weight ky e = ground arith

  -- What `check_keys` makes sure of, entry by entry.
  check_keys-cons :
      (founds : List Bytes) (ky : Key m) (kys : List (Key m))
      → check_keys founds (ky ∷ kys) ≡ ok tt
      → (key_is_valid ky ≡ ok tt)
        × (contains_text (m.publickey_string ky.k) founds ≡ false)
        × (check_keys (m.publickey_string ky.k ∷ founds) kys ≡ ok tt)
  unfolding check_keys
  check_keys-cons founds ky kys e = ground arith

  check_keys-IsWeighted :
      (founds : List Bytes) (kys : List (Key m)) → check_keys founds kys ≡ ok tt → IsWeighted kys
  check_keys-IsWeighted founds [] e = tt
  check_keys-IsWeighted founds (ky ∷ kys) e =
      let (v, n, r) = check_keys-cons founds ky kys e in
      (key_is_valid-weight ky v, check_keys-IsWeighted (m.publickey_string ky.k ∷ founds) kys r)

  -- No text that was met comes again.
  check_keys-fresh :
      (founds : List Bytes) (kys : List (Key m))
      → check_keys founds kys ≡ ok tt
      → All (λ ky. contains_text (m.publickey_string ky.k) founds ≡ false) kys
  check_keys-fresh founds [] e = tt
  check_keys-fresh founds (ky ∷ kys) e =
      let (v, n, r) = check_keys-cons founds ky kys e in
      (
        n,
        All-map (λ y h. (contains_text-cons _ _ founds h).1) kys
            (check_keys-fresh (m.publickey_string ky.k ∷ founds) kys r),
      )

  plain_total : List (Key m) → ℕ
  plain_total [] = 0
  plain_total (ky ∷ kys) = ky.w + plain_total kys

  -- The total does not wrap round.
  total_weight-eq :
      (sum : ℕ) (kys : List (Key m))
      → IsWeighted kys
      → sum + 100 * length kys < uint_mod
      → total_weight sum kys ≡ sum + plain_total kys
  unfolding total_weight plain_total
  total_weight-eq sum [] h b = omega arith
  total_weight-eq sum (ky ∷ kys) h b =
      let w : ky.w ≤ 100 = h.0 in
      let small : (sum + ky.w) % uint_mod ≡ sum + ky.w = omega arith in
      rw small (total_weight-eq (sum + ky.w) kys h.1 (omega arith) ∙ omega arith)

module _ {m : Mitum}
    (equal_iff : (a b : m.Publickey)
      → (m.publickey_equal a b ≡ true) ↔ (m.publickey_string a ≡ m.publickey_string b)) where
  -- Each of the keys is found as itself.
  finds_self :
      (founds : List Bytes) (kys : List (Key m))
      → check_keys founds kys ≡ ok tt
      → All (λ y. find_key y.k kys ≡ some y) kys
  unfolding find_key
  finds_self founds [] e = tt
  finds_self founds (ky ∷ kys) e =
      let (v, n, r) = check_keys-cons founds ky kys e in
      (
        rw ((equal_iff ky.k ky.k).1 refl),
        All-map
            (λ y h.
              let ne = (contains_text-cons _ _ founds h.1).0 in
              ground (
                arith,
                ne,
                h.0,
                equal_iff ky.k y.k,
                bytes_eq_iff (m.publickey_string ky.k) (m.publickey_string y.k),
              ))
            kys
            (All-zip _ _ kys (finds_self (m.publickey_string ky.k ∷ founds) kys r)
              (check_keys-fresh (m.publickey_string ky.k ∷ founds) kys r)),
      )

  -- Signed by each of its keys once, the weight is the whole.
  signed_weight_self :
      (all ys : List (Key m))
      → All (λ y. find_key y.k all ≡ some y) ys
      → signed_weight all (map (λ y. y.k) ys) ≡ plain_total ys
  unfolding signed_weight plain_total
  signed_weight_self all [] h = refl
  signed_weight_self all (y ∷ ys) h =
      omega (arith, ap key_weight h.0, signed_weight_self all ys h.1)

  IsKnown-self :
      (all ys : List (Key m))
      → All (λ y. find_key y.k all ≡ some y) ys
      → All (IsKnown all) (map (λ y. y.k) ys)
  IsKnown-self all [] h = tt
  IsKnown-self all (y ∷ ys) h = (λ n. some_ne_none (sym h.0 ∙ n), IsKnown-self all ys h.1)

  length-signers : (ys : List (Key m)) → length (map (λ y. y.k) ys) ≡ length ys
  length-signers [] = refl
  length-signers (y ∷ ys) = ap suc (length-signers ys)

  -- What `IsValid` makes sure of.
  keys_is_valid-parts :
      (ks : Keys m)
      → keys_is_valid ks ≡ ok tt
      → (check_keys [] ks.keys ≡ ok tt)
        × (length ks.keys ≤ 10)
        × (ks.threshold ≤ total_weight 0 ks.keys)
  unfolding keys_is_valid
  keys_is_valid-parts ks e = ground arith

  -- If public keys are equal exactly when their texts are, then keys that `IsValid` accepts pass
  -- `checkThreshold` when each of them signs once.
  pub all_keys_pass_threshold :
      (ks : Keys m) → keys_is_valid ks ≡ ok tt → check_threshold (map (λ y. y.k) ks.keys) ks ≡ ok tt
  all_keys_pass_threshold ks e =
      let (c, n, t) = keys_is_valid-parts ks e in
      let self = finds_self [] ks.keys c in
      let weighted = check_keys-IsWeighted [] ks.keys c in
      let same = length-signers ks.keys in
      (check_threshold_iff (map (λ y. y.k) ks.keys) ks weighted (omega arith)).1 (
        IsKnown-self ks.keys ks.keys self,
        omega (
          arith,
          total_weight-eq 0 ks.keys weighted (omega arith),
          signed_weight_self ks.keys ks.keys self,
        ),
      )
