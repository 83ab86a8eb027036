-- ===== src/StateKey/Kinds.antt =====
-- currency/state.go: the tests on the text of a key tell what kind of entry it names.
use mitum_currency.Prelude.{
  ℕ, ◌≡◌, ◌≢◌, refl, ap, true, false, Bool, [], ◌∷◌, ◌++◌, arith, Bool-cases, inl, inr,
}
use mitum_currency.Prelude.Bytes.{Bytes, bytes, bytes_eq, bytes_eq_iff}
use mitum_currency.CurrencyId.{CurrencyId}
use mitum_currency.StateKey.{
  Address, has_suffix, has_prefix, account_suffix, balance_suffix, currency_design_prefix,
  state_address_key_prefix, state_balance_key_prefix, state_key_account, state_key_balance,
  state_key_currency_design, is_state_account_key, is_state_balance_key,
  is_state_currency_design_key,
}
use mitum_currency.StateKey.Distinct.{
  last, Entry, account, balance, design, state_key, HasValidId, account_key-last, balance_key-last,
  design_key-last,
}

-- A text with a suffix ends as the suffix does.
has_suffix-last :
    (s : Bytes) (c : ℕ) (t : Bytes) → has_suffix s (c ∷ t) ≡ true → last s ≡ last (c ∷ t)
unfolding has_suffix
has_suffix-last [] c t h = cc
has_suffix-last (x ∷ s) c t h = elim (Bool-cases (bytes_eq (x ∷ s) (c ∷ t))) [
  | inl same ↦ ap last ((bytes_eq_iff (x ∷ s) (c ∷ t)).0 same)
  | inr other ↦ has_suffix_tail-last x s c t (rw other at h) (has_suffix-last s c t)
]
  where
    has_suffix_tail-last :
        (x : ℕ) (s : Bytes) (c : ℕ) (t : Bytes)
        → has_suffix s (c ∷ t) ≡ true
        → (has_suffix s (c ∷ t) ≡ true → last s ≡ last (c ∷ t))
        → last (x ∷ s) ≡ last (c ∷ t)
    has_suffix_tail-last x [] c t h ih = cc
    has_suffix_tail-last x (y ∷ s) c t h ih = ih h

has_suffix-append : (s t : Bytes) → has_suffix (s ++ t) t ≡ true
unfolding has_suffix
has_suffix-append [] [] = refl
has_suffix-append [] (c ∷ t) = rw ((bytes_eq_iff (c ∷ t) (c ∷ t)).1 refl)
has_suffix-append (x ∷ s) t =
    rw (has_suffix-append s t) (ground (arith, Bool-cases (bytes_eq (x ∷ (s ++ t)) t)))

lacks_suffix :
    (s : Bytes) (c : ℕ) (t : Bytes) → last s ≢ last (c ∷ t) → has_suffix s (c ∷ t) ≡ false
lacks_suffix s c t ne = elim (Bool-cases (has_suffix s (c ∷ t))) [
  | inl h ↦ absurd (ne (has_suffix-last s c t h))
  | inr h ↦ h
]

has_prefix-append : (s t : Bytes) → has_prefix (s ++ t) s ≡ true
unfolding has_prefix
has_prefix-append [] t = prefix_nil t
  where
    prefix_nil : (t : Bytes) → has_prefix t [] ≡ true
    prefix_nil [] = refl
    prefix_nil (c ∷ t) = refl
has_prefix-append (c ∷ s) t =
    rw (has_prefix-append s t) (ground (arith, bytes_eq_iff (c ∷ []) (c ∷ [])))

abbrev pub is_account : Entry → Bool
is_account (account a) = true
is_account _ = false

abbrev pub is_balance : Entry → Bool
is_balance (balance a c) = true
is_balance _ = false

abbrev pub is_design : Entry → Bool
is_design (design c) = true
is_design _ = false

account_key-suffix : (a : Address) → has_suffix (state_key_account a) account_suffix ≡ true
unfolding state_key_account
account_key-suffix a = has_suffix-append (state_address_key_prefix a) account_suffix

balance_key-suffix :
    (a : Address) (c : CurrencyId) → has_suffix (state_key_balance a c) balance_suffix ≡ true
unfolding state_key_balance
balance_key-suffix a c = has_suffix-append (state_balance_key_prefix a c) balance_suffix

design_key-prefix :
    (c : CurrencyId) → has_prefix (state_key_currency_design c) currency_design_prefix ≡ true
unfolding state_key_currency_design
design_key-prefix c = has_prefix-append currency_design_prefix c

-- For an entry with a valid currency id, `IsStateAccountKey` and `IsStateBalanceKey` hold of its
-- key exactly if it is an account or a balance, and `IsStateCurrencyDesignKey` holds of the key of
-- every currency design.
pub state_key_kinds :
    (x : Entry)
    → HasValidId x
    → (is_state_account_key (state_key x) ≡ is_account x)
      × (is_state_balance_key (state_key x) ≡ is_balance x)
      × (is_design x ≡ true → is_state_currency_design_key (state_key x) ≡ true)
unfolding state_key is_state_account_key is_state_balance_key is_state_currency_design_key
state_key_kinds (account a) h = (
  account_key-suffix a,
  lacks_suffix (state_key_account a) b':' (bytes "balance")
      (λ e. omega (arith, e, account_key-last a)),
  λ e. cc,
)
state_key_kinds (balance a c) h = (
  lacks_suffix (state_key_balance a c) b':' (bytes "account")
      (λ e. omega (arith, e, balance_key-last a c)),
  balance_key-suffix a c,
  λ e. cc,
)
state_key_kinds (design c) h = (
  lacks_suffix (state_key_currency_design c) b':' (bytes "account")
      (λ e. omega (arith, e, design_key-last c h)),
  lacks_suffix (state_key_currency_design c) b':' (bytes "balance")
      (λ e. omega (arith, e, design_key-last c h)),
  λ e. design_key-prefix c,
)
