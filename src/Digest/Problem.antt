-- ===== src/Digest/Problem.antt =====
-- digest/problem.go: the namespace of the types of problems.
use mitum_currency.Prelude.{
  ℕ, suc, ◌≡◌, refl, ap, sym, Bool, true, false, [], ◌∷◌, ◌++◌, ltb, eqb, length, length-append,
  Result, ok, err, plain, panic, invalid, arith, if◌then◌else◌, ◌&&◌, ◌∙◌,
}
use mathlib.Core.List.{append-nil}
use mitum_currency.Prelude.Slices.{drop}
use mitum_currency.Prelude.Bytes.{Bytes, bytes}

-- `ProblemNamespace`
abbrev pub problem_namespace : Bytes
problem_namespace = bytes "https://github.com/spikeekips/mitum-currency/problems"

-- `strings.HasPrefix`
unfoldable pub has_prefix : Bytes → Bytes → Bool
has_prefix s [] = true
has_prefix [] (p ∷ ps) = false
has_prefix (c ∷ cs) (p ∷ ps) = eqb c p && has_prefix cs ps

-- The two functions, for a namespace; a slice that starts behind the end panics.
unfoldable pub make_problem_namespace : Bytes → Bytes → Bytes
make_problem_namespace namespace t = namespace ++ (47 ∷ t)

unfoldable pub parse_problem_namespace : Bytes → Bytes → Result Bytes
unfolding has_prefix
parse_problem_namespace namespace s =
    if has_prefix s namespace
    then (if ltb (length s) (suc (length namespace))
        then err panic
        else ok (drop (suc (length namespace)) s))
    else err (plain invalid)

has_prefix-append : (p rest : Bytes) → has_prefix (p ++ rest) p ≡ true
unfolding has_prefix
has_prefix-append [] [] = refl
has_prefix-append [] (c ∷ rest) = refl
has_prefix-append (c ∷ p) rest =
    let same : eqb c c ≡ true = ground arith in rw (same, has_prefix-append p rest) refl

drop-append : (p : Bytes) (c : ℕ) (t : Bytes) → drop (suc (length p)) (p ++ (c ∷ t)) ≡ t
drop-append [] c t = refl
drop-append (d ∷ p) c t = drop-append p c t

-- `parseProblemNamespace` of what `makeProblemNamespace` made of a type is that type, and of the
-- namespace alone it panics.
pub parse_problem_namespace-make_problem_namespace :
    (namespace t : Bytes)
    → (parse_problem_namespace namespace (make_problem_namespace namespace t) ≡ ok t)
      × (parse_problem_namespace namespace namespace ≡ err panic)
unfolding parse_problem_namespace make_problem_namespace
parse_problem_namespace-make_problem_namespace namespace t =
    let longer = length-append namespace (47 ∷ t) in
    let long : ltb (length (namespace ++ (47 ∷ t))) (suc (length namespace)) ≡ false =
      ground arith in
    let short : ltb (length namespace) (suc (length namespace)) ≡ true = ground arith in
    let whole : has_prefix namespace namespace ≡ true =
      ap (λ s. has_prefix s namespace) (sym (append-nil namespace))
      ∙ has_prefix-append namespace [] in
    (
      rw (has_prefix-append namespace (47 ∷ t), long) (ap ok (drop-append namespace 47 t)),
      rw (whole, short) refl,
    )
