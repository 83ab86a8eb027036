-- ===== src/Items/Valid.antt =====
-- currency/transfers_item.go and currency/create_accounts_item.go: which amounts an item may have.
use mitum_currency.Prelude.{
  true, List, [], ◌∷◌, length, Result, ok, ◌≡◌, ◌≤◌, ◌↔◌, arith, map, All, ◌>>◌,
}
use mitum_currency.CurrencyId.{CurrencyId}
use mitum_currency.Big.{over_zero}
use mitum_currency.Keys.Distinct.{AllNew, AllNew-distinct, AreDistinct}
use mitum_currency.Design.{Amount, amount_is_valid}
use mitum_currency.Items.{
  ItemKind, single_amount, multi_amounts, base_item, check_amounts, amounts_are_valid,
  kind_is_valid,
}

-- An amount that an item may move.
abbrev pub IsMovable : Amount → Type 0
IsMovable am = (amount_is_valid am ≡ ok tt) × (over_zero am.big ≡ true)

abbrev pub currencies : List Amount → List CurrencyId
currencies ams = map (λ am. am.cid) ams

check_amounts_iff :
    (founds : List CurrencyId) (ams : List Amount)
    → (check_amounts founds ams ≡ ok tt) ↔ (All IsMovable ams × AllNew founds (currencies ams))
unfolding check_amounts
check_amounts_iff founds [] = ground arith
check_amounts_iff founds (am ∷ ams) = ground (arith, check_amounts_iff (am.cid ∷ founds) ams)

-- Amounts that an item of a kind may have.
abbrev pub AreItemAmounts : ItemKind → List Amount → Type 0
AreItemAmounts single_amount ams =
    (length ams ≡ 1) × All IsMovable ams × AreDistinct (currencies ams)
AreItemAmounts multi_amounts ams =
    (1 ≤ length ams) × (length ams ≤ 10) × All IsMovable ams × AreDistinct (currencies ams)
AreItemAmounts base_item ams = (1 ≤ length ams) × All IsMovable ams × AreDistinct (currencies ams)

-- The checks of an item's amounts together.
unfoldable pub item_amounts : ItemKind → List Amount → Result (Unit {0})
item_amounts kind ams = amounts_are_valid ams >> kind_is_valid kind ams

pub item_amounts_iff :
    (kind : ItemKind) (ams : List Amount)
    → (item_amounts kind ams ≡ ok tt) ↔ AreItemAmounts kind ams
unfolding item_amounts amounts_are_valid kind_is_valid
item_amounts_iff single_amount ams =
    ground (arith, check_amounts_iff [] ams, AllNew-distinct (currencies ams))
item_amounts_iff multi_amounts ams =
    ground (arith, check_amounts_iff [] ams, AllNew-distinct (currencies ams))
item_amounts_iff base_item ams =
    ground (arith, check_amounts_iff [] ams, AllNew-distinct (currencies ams))
