-- ===== src/StateKey/Distinct.antt =====
-- currency/state.go: no two entries of the state database share a key.
use mathlib.Core.List.{append_cancel_right, append_cancel_left}
use mitum_currency.Prelude.{
  ℕ, ◌≡◌, ◌≢◌, ◌≤◌, ◌&&◌, refl, ap, ok, true, false, Bool, [], ◌∷◌, ◌++◌, arith, All,
}
use mitum_currency.Prelude.Bytes.{Bytes, bytes}
use mitum_currency.CurrencyId
use mitum_currency.CurrencyId.{CurrencyId, matches_rest, matches_currency_id, is_inner, is_edge}
use mitum_currency.StateKey.{
  Address, currency_design_prefix, state_address_key_prefix, state_balance_key_prefix,
  state_key_account, state_key_balance, state_key_currency_design,
}

-- Where neither rest holds the separator, the text splits in one way only.
split_at_last :
    (d : ℕ) (xs ys us vs : Bytes)
    → All (λ c. c ≢ d) us
    → All (λ c. c ≢ d) vs
    → xs ++ (d ∷ us) ≡ ys ++ (d ∷ vs)
    → (xs ≡ ys) × (us ≡ vs)
split_at_last d [] [] us vs hu hv e = (refl, cc)
split_at_last d [] (y ∷ ys) us vs hu hv e = absurd (go ys vs us hu cc)
  where
    go : (ys vs us : Bytes) → All (λ c. c ≢ d) us → us ≡ ys ++ (d ∷ vs) → ⊥
    go [] vs [] hu e = cc
    go [] vs (u ∷ us) hu e = hu.0 cc
    go (y ∷ ys) vs [] hu e = cc
    go (y ∷ ys) vs (u ∷ us) hu e = go ys vs us hu.1 cc
split_at_last d (x ∷ xs) [] us vs hu hv e = absurd (go xs us vs hv cc)
  where
    go : (xs us vs : Bytes) → All (λ c. c ≢ d) vs → xs ++ (d ∷ us) ≡ vs → ⊥
    go [] us [] hu e = cc
    go [] us (u ∷ vs) hu e = hu.0 cc
    go (y ∷ ys) us [] hu e = cc
    go (y ∷ ys) us (u ∷ vs) hu e = go ys us vs hu.1 cc
split_at_last d (x ∷ xs) (y ∷ ys) us vs hu hv e =
    let (p, q) = split_at_last d xs ys us vs hu hv cc in (cc, q)

-- The last byte.
abbrev pub last : Bytes → ℕ
last [] = 0
last (c ∷ []) = c
last (c ∷ d ∷ cs) = last (d ∷ cs)

last-append : (xs : Bytes) (y : ℕ) (ys : Bytes) → last (xs ++ (y ∷ ys)) ≡ last (y ∷ ys)
last-append [] y ys = refl
last-append (x ∷ []) y ys = refl
last-append (x ∷ w ∷ xs) y ys = last-append (w ∷ xs) y ys

-- A valid id has no dash, and ends in a capital or a digit.
is_inner-no_dash : (c : ℕ) → is_inner c ≡ true → c ≢ b'-'
unfolding is_inner
is_inner-no_dash c h e = let k : is_inner b'-' ≡ true = rw e at h in cc

is_edge-no_dash : (c : ℕ) → is_edge c ≡ true → c ≢ b'-'
unfolding is_edge
is_edge-no_dash c h e = let k : is_edge b'-' ≡ true = rw e at h in cc

is_edge-le : (c : ℕ) → is_edge c ≡ true → c ≤ b'Z'
unfolding is_edge
is_edge-le c h = ground arith

&&-fst : (a b : Bool) → (a && b) ≡ true → a ≡ true
&&-fst true b e = refl
&&-fst false b e = cc

&&-snd : (a b : Bool) → (a && b) ≡ true → b ≡ true
&&-snd true b e = e
&&-snd false b e = cc

matches_rest-no_dash : (cs : Bytes) → matches_rest cs ≡ true → All (λ c. c ≢ b'-') cs
unfolding matches_rest
matches_rest-no_dash [] e = tt
matches_rest-no_dash (c ∷ []) e = (is_edge-no_dash c e, tt)
matches_rest-no_dash (c ∷ d ∷ cs) e =
    (is_inner-no_dash c (&&-fst _ _ e), matches_rest-no_dash (d ∷ cs) (&&-snd _ _ e))

matches_rest-last : (c : ℕ) (cs : Bytes) → matches_rest (c ∷ cs) ≡ true → last (c ∷ cs) ≤ b'Z'
unfolding matches_rest
matches_rest-last c [] e = is_edge-le c e
matches_rest-last c (d ∷ cs) e = matches_rest-last d cs (&&-snd _ _ e)

is_valid-matches :
    (cid : CurrencyId) → CurrencyId.is_valid cid ≡ ok tt → matches_currency_id cid ≡ true
unfolding CurrencyId.is_valid
is_valid-matches cid e = ground arith

-- What the keys need of a valid id.
valid_id-no_dash : (cid : CurrencyId) → CurrencyId.is_valid cid ≡ ok tt → All (λ c. c ≢ b'-') cid
unfolding matches_currency_id
valid_id-no_dash [] e = tt
valid_id-no_dash (c ∷ cs) e =
    let h = is_valid-matches (c ∷ cs) e in
    (is_edge-no_dash c (&&-fst _ _ h), matches_rest-no_dash cs (&&-snd _ _ h))

valid_id-last : (cid : CurrencyId) → CurrencyId.is_valid cid ≡ ok tt → last cid ≤ b'Z'
unfolding matches_currency_id
valid_id-last [] e = omega arith
valid_id-last (c ∷ []) e = is_edge-le c (&&-fst _ _ (is_valid-matches (c ∷ []) e))
valid_id-last (c ∷ d ∷ cs) e = matches_rest-last d cs (&&-snd _ _ (is_valid-matches (c ∷ d ∷ cs) e))

valid_id-nonempty : (cid : CurrencyId) → CurrencyId.is_valid cid ≡ ok tt → cid ≢ []
unfolding matches_currency_id
valid_id-nonempty [] e h = let k = is_valid-matches [] e in cc
valid_id-nonempty (c ∷ cs) e h = cc

-- Two accounts have different keys.
account_key-injective : (a b : Address) → state_key_account a ≡ state_key_account b → a ≡ b
unfolding state_key_account state_address_key_prefix
account_key-injective a b e = append_cancel_right _ _ _ (append_cancel_right _ _ _ e)

-- A balance key determines the account and the currency, if the currency ids are valid.
balance_key-injective :
    (a b : Address) (c d : CurrencyId)
    → CurrencyId.is_valid c ≡ ok tt
    → CurrencyId.is_valid d ≡ ok tt
    → state_key_balance a c ≡ state_key_balance b d
    → (a ≡ b) × (c ≡ d)
unfolding state_key_balance state_balance_key_prefix state_address_key_prefix
balance_key-injective a b c d hc hd e =
    let (p, q) =
      split_at_last b'-' _ _ c d (valid_id-no_dash c hc) (valid_id-no_dash d hd)
        (append_cancel_right _ _ _ e) in
    (append_cancel_right _ _ _ p, q)

design_key-injective :
    (c d : CurrencyId) → state_key_currency_design c ≡ state_key_currency_design d → c ≡ d
unfolding state_key_currency_design
design_key-injective c d e = append_cancel_left currency_design_prefix c d e

-- The kinds of entries that the program keeps in the state database.
pub data Entry : Type 0 where
  account : Address → Entry
  balance : Address → CurrencyId → Entry
  design : CurrencyId → Entry

unfoldable pub state_key : Entry → Bytes
state_key (account a) = state_key_account a
state_key (balance a c) = state_key_balance a c
state_key (design c) = state_key_currency_design c

abbrev pub HasValidId : Entry → Type 0
HasValidId (account a) = Unit {0}
HasValidId (balance a c) = CurrencyId.is_valid c ≡ ok tt
HasValidId (design c) = CurrencyId.is_valid c ≡ ok tt

-- The last byte of a key gives the kind of its entry away.
pub account_key-last : (a : Address) → last (state_key_account a) ≡ b't'
unfolding state_key_account
account_key-last a = last-append (state_address_key_prefix a) b':' (bytes "account")

pub balance_key-last : (a : Address) (c : CurrencyId) → last (state_key_balance a c) ≡ b'e'
unfolding state_key_balance
balance_key-last a c = last-append (state_balance_key_prefix a c) b':' (bytes "balance")

pub design_key-last :
    (c : CurrencyId) → CurrencyId.is_valid c ≡ ok tt → last (state_key_currency_design c) ≤ b'Z'
unfolding state_key_currency_design
design_key-last [] h = absurd (valid_id-nonempty [] h refl)
design_key-last (x ∷ c) h = rw (last-append currency_design_prefix x c) (valid_id-last (x ∷ c) h)

-- Two entries of the state database (accounts, balances and currency designs) whose currency ids
-- are valid have the same key only if they are the same entry.
pub state_key-injective :
    (x y : Entry) → HasValidId x → HasValidId y → state_key x ≡ state_key y → x ≡ y
unfolding state_key
state_key-injective (account a) (account b) hx hy e = ap account (account_key-injective a b e)
state_key-injective (account a) (balance b d) hx hy e =
    absurd (omega (arith, ap last e, account_key-last a, balance_key-last b d))
state_key-injective (account a) (design d) hx hy e =
    absurd (omega (arith, ap last e, account_key-last a, design_key-last d hy))
state_key-injective (balance a c) (account b) hx hy e =
    absurd (omega (arith, ap last e, account_key-last b, balance_key-last a c))
state_key-injective (balance a c) (balance b d) hx hy e =
    let (p, q) = balance_key-injective a b c d hx hy e in cc
state_key-injective (balance a c) (design d) hx hy e =
    absurd (omega (arith, ap last e, balance_key-last a c, design_key-last d hy))
state_key-injective (design c) (account b) hx hy e =
    absurd (omega (arith, ap last e, account_key-last b, design_key-last c hx))
state_key-injective (design c) (balance b d) hx hy e =
    absurd (omega (arith, ap last e, balance_key-last b d, design_key-last c hx))
state_key-injective (design c) (design d) hx hy e = ap design (design_key-injective c d e)
