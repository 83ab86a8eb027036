-- ===== src/Currencies/Swapping.antt =====
-- currency/currency_register.go: the hash of a registration leaves out all but the amount.
use mitum_currency.Prelude.{
  not, some, ok, ◌≡◌, with_ok, guard, plain, invalid, external, ltb, length,
}
use mitum_currency.Mitum.{Mitum}
use mitum_currency.StateKey.{Address}
use mitum_currency.Design.{CurrencyDesign, design_is_valid}
use mitum_currency.Currencies.{CurrencyRegisterFact}
use mitum_currency.Currencies.Facts.{
  register_fact_is_valid, register_generate_hash, design_bytes, has_genesis_account,
}

-- A registration fact that `IsValid` accepts is accepted, with the hash that it has, when its
-- design is replaced by any other valid one with the same amount and with some genesis account.
pub register_fact-swap :
    {m : Mitum} (fact : CurrencyRegisterFact m) (de : CurrencyDesign) (a : Address)
    → register_fact_is_valid fact ≡ ok tt
    → de.amount ≡ fact.currency.amount
    → de.genesis_account ≡ some a
    → design_is_valid m de ≡ ok tt
    → register_fact_is_valid (record fact { currency = de }) ≡ ok tt
unfolding register_fact_is_valid register_generate_hash design_bytes
register_fact-swap {m} fact de a valid same account proper =
    with_ok (guard (not (ltb (length fact.token) 1)) (plain invalid)) _ valid λ u₁ token r₁.
      with_ok (guard (m.hash_is_valid fact.h) (plain external)) _ r₁ λ u₂ hash r₂.
        with_ok (design_is_valid m fact.currency) _ r₂ λ u₃ design r₃.
          with_ok (guard (has_genesis_account fact.currency) (plain invalid)) _ r₃
            λ u₄ opened r₄. rw (token, hash, proper, account, same) r₄
