-- ===== src/Digest/Examples.antt =====
-- A database of lists, and framework values for a block of height three, on which the tests run.
use mitum_currency.Prelude.{
  ℕ, true, Option, none, some, List, [], ◌∷◌, ◌++◌, length, Result, ok, err, plain, invalid,
}
use mitum_currency.Prelude.Int.{ℤ, pos, negsuc, ltb_ℤ}
use mitum_currency.Prelude.Slices.{Perm-path, keep}
use mitum_currency.Prelude.Bytes.{Bytes}
use mitum_currency.StateKey.{state_key_account, state_key_balance, state_key_currency_design}
use mitum_currency.State.{Value, account_value, amount_value, design_value, other_value}
use mitum_currency.Digest.Driver.{DigestApi, Driver}
use mitum_currency.Digest.Session.{Block}
use mitum_currency.Digest.Database.{OperationDoc}
use mitum_currency.Digest.Offset.{parse_uint}
use mitum_currency.StateKey.{state_address_key_prefix}
use mitum_currency.Prelude.{◌>>=◌}
use mitum_currency.Examples.{net, api, ann, bob, address_of, account_of, amount_of, pool_design}

abbrev pub lists : Driver
lists = record {
  Collection = λ D. List D;
  documents = λ c. c;
  drop = λ c. ok [];
  delete_from = λ height h c. ok (keep (λ x. ltb_ℤ (height x) h) c);
  bulk_write = λ ordered ds c. ok (c ++ ds, length ds);
  Info = Option Bytes;
  set_info = λ b i. ok (some b);
  info = λ i. ok i;
  drop_law = λ e. cc;
  delete_from_law = λ e. Perm-path (let p = e in cc);
  bulk_write_law = λ e. Perm-path (let p = e in cc);
  info_law = λ e. cc;
}

abbrev pub height_bytes : ℤ → Bytes
height_bytes (pos n) = n ∷ []
height_bytes (negsuc n) = n ∷ 0 ∷ []

abbrev pub height_from_bytes : Bytes → Result ℤ
height_from_bytes [] = err (plain invalid)
height_from_bytes (n ∷ []) = ok (pos n)
height_from_bytes (n ∷ z ∷ zs) = ok (negsuc n)

abbrev pub key_of : Option (Value net) → Bytes
key_of none = []
key_of (some (account_value a)) = state_key_account a.address
key_of (some (amount_value am)) = state_key_balance (address_of ann) am.cid
key_of (some (design_value de)) = state_key_currency_design de.amount.cid
key_of (some other_value) = []

abbrev pub dig : DigestApi api
dig = record {
  nil_height = negsuc 1;
  pre_genesis_height = negsuc 0;
  height_bytes = height_bytes;
  height_from_bytes = height_from_bytes;
  height_from_string = λ s. parse_uint s >>= λ n. ok (pos n);
  key = key_of;
  height = λ st. pos 3;
  previous_height = λ st. pos 2;
  Operation = Bytes;
  fact_hash = λ op. op;
  addresses = λ op. some (ok (address_of ann ∷ address_of bob ∷ []));
  Reason = Bytes;
}

-- One operation, an account, a balance, and a design that is not digested.
abbrev pub third : Block dig
third = record {
  height = pos 3;
  operations_tree = record { fact = 7 ∷ []; in_state = true; reason = none } ∷ [];
  operations = (7 ∷ []) ∷ [];
  states =
      some (account_value (account_of bob))
      ∷ some (amount_value (amount_of 70))
      ∷ some (design_value pool_design)
      ∷ [];
}

-- The operation of a position.
abbrev pub operation_at : ℕ → ℕ → OperationDoc dig
operation_at h i = record {
  op = h ∷ i ∷ [];
  addresses = state_address_key_prefix (address_of ann) ∷ [];
  fact = h ∷ i ∷ [];
  height = pos h;
  index = i;
  in_state = true;
  reason = none;
}

-- Three operations, the newest first.
abbrev pub newest_first : List (OperationDoc dig)
newest_first = operation_at 4 0 ∷ operation_at 3 1 ∷ operation_at 3 0 ∷ []
