-- ===== src/Order.antt =====
-- libs/payment-core-webservice/src/service/order-calculation.service.ts: the items, totals and taxes
-- of an order. What the services of items, prices, taxes, accounts and commissions answer is a record
-- of functions. The numbers are those of `BigJs`, any type N: a product or a tax is not rounded here.
-- Note texts, units and the entity that an item stands for are left out.
pub mod Totals
pub mod Payment
mod Tests
use postral_core.Prelude.{
  ℕ, String, Bool, true, false, not, ◌&&◌, ◌||◌, Option, none, some, List, [], ◌∷◌, Result, ok, err,
  ◌>>=◌, ◌>>◌, throw_if, or_throw, find, any, is_empty, str_eq, ltb, utf16_length, join,
  if◌then◌else◌,
}
use postral_core.Amount.{
  BigJs, add_number_values, multiply_number_values, calculate_comission_amount_by_percent,
}
use postral_core.Tax.{TaxDto, TaxFailure, generate_tax_dto}

pub data OrderFailure : Type 0 where
  long_note identification_missing item_not_found seller_not_found : OrderFailure
  seller_not_commercial tax_not_found tax_variation_not_found : OrderFailure
  price_not_found default_price_not_found division_by_zero : OrderFailure
  tax_failed : TaxFailure → OrderFailure

pub data AccountType : Type 0 where
  commercial individual : AccountType

-- What is ordered.
pub record OrderedItem (N : Type 0) : Type 0 where
  pub item_id : Option String
  pub entity_group : Option String
  pub entity_id : Option String
  pub entity_name : Option String
  pub variation : Option String
  pub quantity : N
  pub note : Option String

-- What is sold.
pub record Item : Type 0 where
  pub id : String
  pub name : String
  pub item_class : Option String
  pub seller_account_id : String
  pub item_tax_id : String

pub record ItemTaxVariation (N : Type 0) : Type 0 where
  pub tax_mode : String
  pub tax_rate : N

pub record ItemTax (N : Type 0) : Type 0 where
  pub tax_name : String
  pub variations : List (ItemTaxVariation N)

pub record ItemPrice (N : Type 0) : Type 0 where
  pub variation : String
  pub item_price : N

-- The services that are asked; a search takes the currency, the item and the variation.
pub record Catalogue (N : Type 0) : Type 0 where
  pub fetch_item : OrderedItem N → Option Item
  pub commission_percent : String → String → N
  pub account_type : String → Option AccountType
  pub fetch_tax : String → Option (ItemTax N)
  pub latest_prices : String → String → Option String → List (ItemPrice N)
  pub default_prices : String → String → Option String → List (ItemPrice N)
  -- the setting `comissionsCalculatedFromNet`
  pub commissions_from_net : Bool

-- `PostralPaymentItem` before it is saved
pub record CalculatedItem (N : Type 0) : Type 0 where
  pub variation : String
  pub item_class : String
  pub total_amount : N
  pub tax_percent : N
  pub item_id : String
  pub seller_account_id : String
  pub original_unit_amount : N
  pub unit_amount : N
  pub name : String
  pub tax_amount : N
  pub un_tax_amount : N
  pub quantity : N
  pub app_comission_percent : N
  pub app_comission_amount : N

-- `ItemListCalculationDto`
pub record Calculation (N : Type 0) : Type 0 where
  pub items : List (CalculatedItem N)
  pub total_amount : N
  pub total_tax_amount : N
  pub taxes : List (TaxDto N)

abbrev max_payment_note_length : ℕ
max_payment_note_length = 10_000

abbrev pub is_long : Option String → Bool
is_long none = false
is_long (some text) = ltb max_payment_note_length (utf16_length text)

-- `!itemId && (!entityGroup || !entityId || !entityName)`
unfoldable pub is_unidentified : {N : Type 0} → OrderedItem N → Bool
is_unidentified o =
    is_empty o.item_id
    && (is_empty o.entity_group || is_empty o.entity_id || is_empty o.entity_name)

abbrev pub is_commercial : AccountType → Bool
is_commercial AccountType.commercial = true
is_commercial AccountType.individual = false

-- `prices[0]`
abbrev pub first_price : {N : Type 0} → List (ItemPrice N) → Option (ItemPrice N)
first_price [] = none
first_price (p ∷ _) = some p

abbrev pub or_blank : Option String → String
or_blank none = ""
or_blank (some s) = s

abbrev pub as_order : {A : Type 0} → Result TaxFailure A → Result OrderFailure A
as_order (ok a) = ok a
as_order (err e) = err (tax_failed e)

module _ {N : Type 0} (b : BigJs N) (catalogue : Catalogue N) (sale_mode currency : String) where
  open catalogue use {
    fetch_item, commission_percent, account_type, fetch_tax, latest_prices, default_prices,
    commissions_from_net,
  }

  -- The item and its tax, from the price, the default price and the rate of the tax.
  unfoldable pub price_item :
      OrderedItem N
      → Item
      → ItemTax N
      → N
      → ItemPrice N
      → ItemPrice N
      → Result OrderFailure (CalculatedItem N × TaxDto N)
  price_item o item tax rate price default = do
    let total = multiply_number_values b (price.item_price ∷ o.quantity ∷ [])
    dto ←
        as_order
          (generate_tax_dto b (join " - " (tax.tax_name ∷ sale_mode ∷ [])) total (some rate) none)
    let percent = commission_percent item.seller_account_id (or_blank item.item_class)
    commission ←
        or_throw
          (calculate_comission_amount_by_percent b
            (if commissions_from_net then dto.untax_amount else total) percent)
          division_by_zero
    ok (
      record {
        variation = price.variation;
        item_class = or_blank item.item_class;
        total_amount = total;
        tax_percent = rate;
        item_id = item.id;
        seller_account_id = item.seller_account_id;
        original_unit_amount = default.item_price;
        unit_amount = price.item_price;
        name = item.name;
        tax_amount = dto.tax_amount;
        un_tax_amount = dto.untax_amount;
        quantity = o.quantity;
        app_comission_percent = percent;
        app_comission_amount = commission;
      },
      dto,
    )

  -- one turn of the loop
  unfoldable pub calculate_item : OrderedItem N → Result OrderFailure (CalculatedItem N × TaxDto N)
  calculate_item o = do
    throw_if (is_unidentified o) identification_missing
    item ← or_throw (fetch_item o) item_not_found
    account ← or_throw (account_type item.seller_account_id) seller_not_found
    throw_if (not (is_commercial account)) seller_not_commercial
    tax ← or_throw (fetch_tax item.item_tax_id) tax_not_found
    variation ←
        or_throw (find (λ (v : ItemTaxVariation N). str_eq v.tax_mode sale_mode) tax.variations)
          tax_variation_not_found
    price ← or_throw (first_price (latest_prices currency item.id o.variation)) price_not_found
    default ←
        or_throw (first_price (default_prices currency item.id o.variation)) default_price_not_found
    price_item o item tax variation.tax_rate price default

  -- the loop, from the totals so far
  unfoldable pub calculate_items :
      N → N → List (OrderedItem N) → Result OrderFailure (Calculation N)
  calculate_items total tax [] =
      ok (record { items = []; total_amount = total; total_tax_amount = tax; taxes = [] })
  calculate_items total tax (o ∷ os) = do
    (item, dto) ← calculate_item o
    rest ←
        calculate_items (add_number_values b (total ∷ item.total_amount ∷ []))
          (add_number_values b (tax ∷ dto.tax_amount ∷ [])) os
    ok (record rest { items = item ∷ rest.items; taxes = dto ∷ rest.taxes })

  unfoldable pub calculate_total_amount : List (OrderedItem N) → Result OrderFailure (Calculation N)
  calculate_total_amount os = do
    throw_if (any (λ (o : OrderedItem N). is_long o.note) os) long_note
    calculate_items (b.literal 0) (b.literal 0) os
