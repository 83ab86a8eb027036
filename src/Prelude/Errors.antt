-- ===== src/Prelude/Errors.antt =====
-- Values with a Go `error`. An error is a `BaseReasonError` of the operation package, by which an
-- operation is turned down, or any other one; a panic of the Go runtime is an error of its own.
use mathlib.Core.Path.{◌≡◌, refl}
use mathlib.Core.Bool.{Bool, true, false}

pub data Code : Type 0 where
  not_exist already_exist not_found wrong_value unknown_currency insufficient_balance : Code
  under_minimum unknown_key not_enough_weight not_enough_signs empty_publickeys same_keys : Code
  already_registered duplicated invalid external : Code

pub data Error : Type 0 where
  plain : Code → Error
  reason : Code → Error
  panic : Error

pub data Result {ℓ} (A : Type ℓ) : Type ℓ where
  ok : A → Result A
  err : Error → Result A

-- `operation.NewBaseReasonErrorFromError`, and the wrapping of an error by a reason error
abbrev pub to_reason : Error → Error
to_reason (plain c) = reason c
to_reason (reason c) = reason c
to_reason panic = panic

abbrev pub as_reason {ℓ} : {A : Type ℓ} → Result A → Result A
as_reason (ok a) = ok a
as_reason (err e) = err (to_reason e)

-- `if !b { return e }`
abbrev pub guard : Bool → Error → Result (Unit {0})
guard true e = ok tt
guard false e = err e

infixl 5 ◌>>=◌
abbrev pub ◌>>=◌ {κ μ} : {V : Type κ} {W : Type μ} → Result V → (V → Result W) → Result W
ok v >>= next = next v
err cause >>= next = err cause

-- Inversion of a successful bind.
pub >>=-eq-ok {ℓ κ} :
    {V : Type ℓ} {W : Type κ} (first : Result V) (next : V → Result W) {w : W}
    → (first >>= next) ≡ ok w
    → (v : V) × (first ≡ ok v) × (next v ≡ ok w)
>>=-eq-ok (ok v) next done = (v, refl, done)
>>=-eq-ok (err cause) next done = cc

infixl 5 ◌>>◌
abbrev pub ◌>>◌ {ℓ} : {B : Type ℓ} → Result (Unit {0}) → Result B → Result B
m >> k = m >>= λ _. k

pub guard-eq-ok : (b : Bool) (e : Error) {u : Unit {0}} → guard b e ≡ ok u → b ≡ true
guard-eq-ok true e h = refl
guard-eq-ok false e h = cc

pub as_reason-eq-ok {ℓ} : {A : Type ℓ} (m : Result A) {a : A} → as_reason m ≡ ok a → m ≡ ok a
as_reason-eq-ok (ok a) h = h
as_reason-eq-ok (err e) h = cc

-- The same, for a goal under the steps that succeeded.
pub with_ok {ℓ κ μ} :
    {A : Type ℓ} {B : Type κ} {C : Type μ} (m : Result A) (f : A → Result B) {b : B}
    → (m >>= f) ≡ ok b
    → ((a : A) → m ≡ ok a → f a ≡ ok b → C)
    → C
with_ok (ok a) f h k = k a refl h
with_ok (err e) f h k = absurd (cc)
