-- ===== src/Digest/Balance/Latest.antt =====
-- digest/database.go: `balance` ends, with the latest balance of each currency.
use mitum_currency.Prelude.{
  ℕ, zero, suc, ◌≤◌, ◌<◌, ◌≡◌, refl, sym, ap, ◌∙◌, Bool, true, false, not, Option, none, some, List,
  [], ◌∷◌, ◌++◌, length, Result, ok, arith, ◌&&◌, ◌||◌, ◌⊎◌, inl, inr, if◌then◌else◌, Bool-cases,
}
use mitum_currency.Prelude.Int.{◌≤ℤ◌}
use mitum_currency.Prelude.Bytes.{Bytes, bytes_eq, bytes_eq_iff, bytes_eq_instance}
use mitum_currency.Prelude.Map.{Map, lookup, insert, lookup-insert}
use mitum_currency.Mitum.{Mitum}
use mitum_currency.CurrencyId.{CurrencyId}
use mitum_currency.StateKey.{Address, state_address_key_prefix}
use mitum_currency.Keys.{contains_text}
use mitum_currency.Design.{Amount}
use mitum_currency.State.{StateApi, plain_state, state_balance_value}
use mitum_currency.Digest.Driver.{DigestApi}
use mitum_currency.Digest.Database.{BalanceDoc}
use mitum_currency.Digest.Balance.{Balances, gather, balance_loop, balance}

contains_text-append :
    (t : Bytes) (ss : List Bytes) (s : Bytes)
    → contains_text t (ss ++ (s ∷ [])) ≡ (contains_text t ss || bytes_eq s t)
unfolding contains_text
contains_text-append t [] s = ground arith
contains_text-append t (r ∷ ss) s = ground (arith, contains_text-append t ss s)

-- A count of the entries that pass a test, and when it gets smaller.
module _ {A : Type 0} where
  abbrev count : (A → Bool) → List A → ℕ
  count f [] = 0
  count f (x ∷ xs) = if f x then suc (count f xs) else count f xs

  abbrev pub IsIn : A → List A → Type 0
  IsIn y [] = ⊥
  IsIn y (x ∷ xs) = (y ≡ x) ⊎ IsIn y xs

  count-length : (f : A → Bool) (xs : List A) → count f xs ≤ length xs
  count-length f [] = omega arith
  count-length f (x ∷ xs) = let more = count-length f xs in ground arith

  count_le :
      (f g : A → Bool) (xs : List A) → ((x : A) → g x ≡ true → f x ≡ true) → count g xs ≤ count f xs
  count_le f g [] h = omega arith
  count_le f g (x ∷ xs) h = let here = h x in let more = count_le f g xs h in ground arith

  count_less :
      (f g : A → Bool) (xs : List A) (y : A)
      → ((x : A) → g x ≡ true → f x ≡ true)
      → IsIn y xs
      → f y ≡ true
      → g y ≡ false
      → count g xs < count f xs
  count_less f g [] y h at yes' no' = absurd at
  count_less f g (x ∷ xs) y h (inl same) yes' no' =
      let fx : f x ≡ true = ap f (sym same) ∙ yes' in
      let gx : g x ≡ false = ap g (sym same) ∙ no' in let more = count_le f g xs h in ground arith
  count_less f g (x ∷ xs) y h (inr later) yes' no' =
      let here = h x in let more = count_less f g xs y h later yes' no' in ground arith

-- A document under the address, in none of the currencies.
abbrev pub is_wanted :
    {m : Mitum} {api : StateApi m} → Address → List CurrencyId → BalanceDoc api → Bool
is_wanted a cids d =
    bytes_eq d.address (state_address_key_prefix a) && not (contains_text d.currency cids)

module _ {m : Mitum} {api : StateApi m} (dig : DigestApi api)
    (find_balance : Bytes → List CurrencyId → Result (Option (BalanceDoc api))) (a : Address)
    (docs : List (BalanceDoc api)) where
  -- What a search for the document of the highest height may answer.
  abbrev pub IsNewest : List CurrencyId → Option (BalanceDoc api) → Type 0
  IsNewest cids none = (e : BalanceDoc api) → IsIn e docs → is_wanted a cids e ≡ false
  IsNewest cids (some d) =
      IsIn d docs
      × (is_wanted a cids d ≡ true)
      × ((e : BalanceDoc api) → IsIn e docs → is_wanted a cids e ≡ true → e.height ≤ℤ d.height)

  abbrev pub Finds : Type 0
  Finds =
      (cids : List CurrencyId)
      → (o : Option (BalanceDoc api)) × (find_balance (state_address_key_prefix a) cids ≡ ok o)
        × IsNewest cids o

  -- The documents hold amounts of the currencies that they name.
  abbrev pub HoldAmounts : Type 0
  HoldAmounts =
      (d : BalanceDoc api)
      → IsIn d docs
      → (am : Amount) × (state_balance_value {api = api} (plain_state d.st) ≡ ok am)
        × (am.cid ≡ d.currency)

  -- The gathered amount of the currency of a document is that of one at least as high.
  abbrev pub IsLatest : Map CurrencyId Amount → BalanceDoc api → Type 0
  IsLatest amm e =
      (d : BalanceDoc api) × (am : Amount) × IsIn d docs
      × (d.address ≡ state_address_key_prefix a)
      × (d.currency ≡ e.currency)
      × (e.height ≤ℤ d.height)
      × (state_balance_value {api = api} (plain_state d.st) ≡ ok am)
      × (lookup e.currency amm ≡ some am)

  abbrev AreSettled : List CurrencyId → Map CurrencyId Amount → Type 0
  AreSettled cids amm =
      (e : BalanceDoc api)
      → IsIn e docs
      → e.address ≡ state_address_key_prefix a
      → contains_text e.currency cids ≡ true
      → IsLatest amm e

  -- The found document settles its currency, and no other one changes.
  settle :
      (cids : List CurrencyId) (amm : Map CurrencyId Amount) (d : BalanceDoc api) (am : Amount)
      → IsNewest cids (some d)
      → state_balance_value {api = api} (plain_state d.st) ≡ ok am
      → am.cid ≡ d.currency
      → AreSettled cids amm
      → AreSettled (cids ++ (am.cid ∷ [])) (insert am.cid am amm)
  settle cids amm d am (at, wanted, newest) value named before e ein under known =
      let now = lookup-insert am.cid e.currency am amm in
      let split = sym (contains_text-append e.currency cids am.cid) ∙ known in
      let mine =
        (bytes_eq_iff d.address (state_address_key_prefix a)).0 (let w = wanted in ground arith) in
      let fresh : contains_text d.currency cids ≡ false = let w = wanted in ground arith in
      elim (Bool-cases (bytes_eq am.cid e.currency)) [
        | inl same ↦
            let of_e : d.currency ≡ e.currency =
              sym named ∙ (bytes_eq_iff am.cid e.currency).0 same in
            let new : contains_text e.currency cids ≡ false =
              ap (λ c. contains_text c cids) (sym of_e) ∙ fresh in
            let own : bytes_eq e.address (state_address_key_prefix a) ≡ true =
              (bytes_eq_iff e.address (state_address_key_prefix a)).1 under in
            let chosen : is_wanted a cids e ≡ true = rw (own, new) refl in
            (d, am, at, mine, of_e, newest e ein chosen, value, now ∙ rw same refl)
        | inr other ↦
            let old : contains_text e.currency cids ≡ true = let w = split in ground arith in
            let (x, bm, xin, x_under, x_of, high, x_value, found) = before e ein under old in
            (x, bm, xin, x_under, x_of, high, x_value, now ∙ rw other found)
      ]

  -- A document that was found is wanted no more.
  fewer :
      (cids : List CurrencyId) (d : BalanceDoc api) (c : CurrencyId)
      → IsIn d docs
      → is_wanted a cids d ≡ true
      → c ≡ d.currency
      → count (is_wanted a (cids ++ (c ∷ []))) docs < count (is_wanted a cids) docs
  fewer cids d c at wanted named =
      count_less (is_wanted a cids) (is_wanted a (cids ++ (c ∷ []))) docs d
        (λ x. let more = contains_text-append x.currency cids c in ground arith) at wanted
        (let more = contains_text-append d.currency cids c in
          let self = (bytes_eq_iff c d.currency).1 named in ground arith)

  -- That many rounds are enough, and settle all.
  abbrev Ends : ℕ → Type 0
  Ends n =
      (cids : List CurrencyId) (found : Balances)
      → count (is_wanted a cids) docs < n
      → AreSettled cids found.amm
      → (b : Balances) × (balance_loop dig find_balance n a cids found ≡ ok b)
        × ((e : BalanceDoc api)
            → IsIn e docs
            → e.address ≡ state_address_key_prefix a
            → IsLatest b.amm e)

  -- When nothing is wanted, all is settled.
  all_settled :
      (cids : List CurrencyId) (amm : Map CurrencyId Amount)
      → IsNewest cids none
      → AreSettled cids amm
      → (e : BalanceDoc api) → IsIn e docs
      → e.address ≡ state_address_key_prefix a
      → IsLatest amm e
  all_settled cids amm done settled e ein under =
      let own : bytes_eq e.address (state_address_key_prefix a) ≡ true =
        (bytes_eq_iff e.address (state_address_key_prefix a)).1 under in
      let not_wanted = done e ein in settled e ein under (ground arith)

  balance_loop-round :
      (n : ℕ) (cids : List CurrencyId) (found : Balances) (o : Option (BalanceDoc api))
      → Ends n
      → HoldAmounts
      → find_balance (state_address_key_prefix a) cids ≡ ok o
      → IsNewest cids o
      → count (is_wanted a cids) docs < suc n
      → AreSettled cids found.amm
      → (b : Balances) × (balance_loop dig find_balance (suc n) a cids found ≡ ok b)
        × ((e : BalanceDoc api)
            → IsIn e docs
            → e.address ≡ state_address_key_prefix a
            → IsLatest b.amm e)
  unfolding balance_loop
  balance_loop-round n cids found none ends holds asked done enough settled =
      (found, rw asked refl, all_settled cids found.amm done settled)
  balance_loop-round n cids found (some d) ends holds asked new enough settled =
      let (am, value, named) = holds d new.0 in
      let less = fewer cids d am.cid new.0 new.1 named in
      let (b, ran, latest) =
        ends (cids ++ (am.cid ∷ [])) (gather dig found d am) (omega arith)
          (settle cids found.amm d am new value named settled) in
      (b, rw (asked, value) ran, latest)

  balance_loop-Ends : (n : ℕ) → Finds → HoldAmounts → Ends n
  balance_loop-Ends zero finds holds cids found enough settled = absurd (omega arith)
  balance_loop-Ends (suc n) finds holds cids found enough settled =
      let (o, asked, new) = finds cids in
      balance_loop-round n cids found o (balance_loop-Ends n finds holds) holds asked new enough
        settled

  -- If each search answers a balance of the highest height under the address outside the listed
  -- currencies, or nothing if there is none, and each balance holds an amount of the currency that
  -- it names, then `balance` ends, in no more rounds than there are balances and one, and for
  -- every balance under the address it has gathered the amount of one of that address and currency
  -- which is at least as high.
  pub balance-IsLatest :
      (n : ℕ)
      → Finds
      → HoldAmounts
      → length docs < n
      → (b : Balances) × (balance dig find_balance n a ≡ ok b)
        × ((e : BalanceDoc api)
            → IsIn e docs
            → e.address ≡ state_address_key_prefix a
            → IsLatest b.amm e)
  unfolding balance contains_text
  balance-IsLatest n finds holds enough =
      balance_loop-Ends n finds holds [] _
        (let few = count-length (is_wanted a []) docs in omega arith)
        (λ e ein under known. absurd (cc))
