-- ===== src/StateKey.antt =====
-- currency/state.go and currency/address.go: the text of the keys under which accounts, balances
-- and currency designs stand in the state database.
pub mod Distinct
pub mod Kinds
mod Tests
use mitum_currency.Prelude.{Bool, true, ◌||◌, ◌&&◌, false, [], ◌∷◌, ◌++◌}
use mitum_currency.Prelude.Bytes.{Bytes, bytes, bytes_eq}
use mitum_currency.CurrencyId.{CurrencyId}

-- `type Address string`; `Raw` gives the text. Other implementations of `base.Address` do not
-- occur in the program.
abbrev pub Address : Type 0
Address = Bytes

-- `strings.HasSuffix`, `strings.HasPrefix`
unfoldable pub has_suffix : Bytes → Bytes → Bool
has_suffix [] t = bytes_eq [] t
has_suffix (c ∷ s) t = bytes_eq (c ∷ s) t || has_suffix s t

unfoldable pub has_prefix : Bytes → Bytes → Bool
has_prefix s [] = true
has_prefix [] (c ∷ t) = false
has_prefix (b ∷ s) (c ∷ t) = bytes_eq (b ∷ []) (c ∷ []) && has_prefix s t

abbrev pub account_suffix : Bytes
account_suffix = bytes ":account"

abbrev pub balance_suffix : Bytes
balance_suffix = bytes ":balance"

abbrev pub currency_design_prefix : Bytes
currency_design_prefix = bytes "currencydesign:"

-- The two bytes of `AddressType`, in hexadecimal digits.
abbrev pub address_type : Bytes
address_type = bytes "a000"

unfoldable pub state_address_key_prefix : Address → Bytes
state_address_key_prefix a = a ++ (bytes "-" ++ address_type)

unfoldable pub state_balance_key_prefix : Address → CurrencyId → Bytes
unfolding state_address_key_prefix
state_balance_key_prefix a cid = state_address_key_prefix a ++ (bytes "-" ++ cid)

unfoldable pub state_key_account : Address → Bytes
unfolding state_address_key_prefix
state_key_account a = state_address_key_prefix a ++ account_suffix

unfoldable pub is_state_account_key : Bytes → Bool
unfolding has_suffix
is_state_account_key key = has_suffix key account_suffix

unfoldable pub state_key_balance : Address → CurrencyId → Bytes
unfolding state_balance_key_prefix
state_key_balance a cid = state_balance_key_prefix a cid ++ balance_suffix

unfoldable pub is_state_balance_key : Bytes → Bool
unfolding has_suffix
is_state_balance_key key = has_suffix key balance_suffix

unfoldable pub state_key_currency_design : CurrencyId → Bytes
state_key_currency_design cid = currency_design_prefix ++ cid

unfoldable pub is_state_currency_design_key : Bytes → Bool
unfolding has_prefix
is_state_currency_design_key key = has_prefix key currency_design_prefix
