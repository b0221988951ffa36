-- ===== src/Tests/Quotes.antt =====
-- The carrier of the draft of the shop of the tests.
use automatizacion_wh.Common.{◌≡◌, refl, false, [], ◌∷◌, codes, ok, ascii, select_one}
use automatizacion_wh.Database.{Db}
use automatizacion_wh.Shipping.Policy.{parse_policy}
use automatizacion_wh.Shipping.Selection.{is_eligible_carrier_quote}
use automatizacion_wh.Shipping.Quotes.{
  select_quote, write_selection, Choosable, OnlySelected, select_quote-OnlySelected,
}
use automatizacion_wh.Tests.Shop.{drafted, quote}

-- A second quote of the draft, which was the selected one.
abbrev offered : Db
offered = record drafted {
  quotes = record quote { selected = false } ∷ record quote { id = 4; carrier = codes "tcc" } ∷ [];
}

chosen : select_quote ascii 500 offered 1 3 ≡ ok (write_selection offered 1 3)
unfolding select_quote select_one parse_policy is_eligible_carrier_quote
chosen = refl

select_quote-OnlySelected_example :
    Choosable ascii 500 offered 1 3 × OnlySelected 1 3 (write_selection offered 1 3).quotes
select_quote-OnlySelected_example =
    select_quote-OnlySelected ascii 500 offered (write_selection offered 1 3) 1 3 chosen
