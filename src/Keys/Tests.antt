-- ===== src/Keys/Tests.antt =====
-- currency/keys.go: runs.
use mitum_currency.Prelude.{[], ◌∷◌, ◌++◌, ◌≡◌, ◌≤◌, ◌↔◌, refl, ok, All, arith}
use mitum_currency.Prelude.Bytes.{bytes_eq_iff}
use mitum_currency.Keys
use mitum_currency.Keys.{Keys, check_threshold, keys_is_valid}
use mitum_currency.Keys.Sorting.{bytes_lt, sort_by, insert_by}
use mitum_currency.Keys.Threshold.{IsKnown, signed_weight, check_threshold_iff}
use mitum_currency.Keys.Liveness.{all_keys_pass_threshold}
use mitum_currency.Examples.{net, ann, bob}

-- Two keys, neither of which is enough alone.
abbrev joint : Keys net
joint = record {
  h = (ann ++ (40 ∷ [])) ++ ((bob ++ (60 ∷ [])) ++ []) ++ (90 ∷ []);
  keys = record { k = bob; w = 60 } ∷ record { k = ann; w = 40 } ∷ [];
  threshold = 90;
}

check_threshold_iff_example :
    (check_threshold (ann ∷ bob ∷ []) joint ≡ ok tt)
    ↔ (All (IsKnown joint.keys) (ann ∷ bob ∷ []) × (90 ≤ signed_weight joint.keys (ann ∷ bob ∷ [])))
check_threshold_iff_example =
    check_threshold_iff (ann ∷ bob ∷ []) joint (omega arith, (omega arith, tt)) (omega arith)

all_keys_pass_threshold_example : check_threshold (bob ∷ ann ∷ []) joint ≡ ok tt
unfolding keys_is_valid Keys.check_keys Keys.key_is_valid Keys.contains_text Keys.total_weight
    Keys.generate_hash Keys.keys_bytes Keys.concat_keys Keys.key_bytes Keys.sort_keys sort_by
    bytes_lt insert_by
all_keys_pass_threshold_example = all_keys_pass_threshold bytes_eq_iff joint refl
