-- ===== src/Order/Tests.antt =====
-- An order of two pieces at 6.00 with 20 percent tax and a commission of 10 percent.
use postral_core.Prelude.{
  ◌≡◌, refl, false, none, some, List, [], ◌∷◌, ok, pos, ◌+ℤ◌, ◌-ℤ◌, ◌*ℤ◌, All, join, utf16_length,
  is_blank,
}
use postral_core.Amount.{
  Amount, add_number_values, plus_values, minus_number_values, minus_values, multiply_number_values,
  times_values, divide_number_values, calculate_comission_amount_by_percent,
}
use postral_core.Amount.Fractions.{fractions}
use postral_core.Entity.Status.{PaymentType}
use postral_core.Entity.Payment.{Payment}
use postral_core.Tax.{TaxDto, calculate_untaxed_price, calculate_tax_amount, generate_tax_dto}
use postral_core.Order.{
  AccountType, OrderedItem, Catalogue, CalculatedItem, Calculation, is_unidentified, price_item,
  calculate_item, calculate_items, calculate_total_amount,
}
use postral_core.Order.Totals.{add_each, IsPriced, calculate_total_amount-sum}
use postral_core.Order.Payment.{PaymentInit, sale_mode_of, new_payment, generate_entity}

abbrev catalogue : Catalogue Amount
catalogue = record {
  fetch_item = λ o. some (record {
    id = "chair";
    name = "Chair";
    item_class = none;
    seller_account_id = "seller";
    item_tax_id = "vat";
  });
  commission_percent = λ seller item_class. pos 100_000;
  account_type = λ id. some AccountType.commercial;
  fetch_tax = λ id. some (record {
    tax_name = "VAT";
    variations = record { tax_mode = "DEFAULT"; tax_rate = pos 200_000 } ∷ [];
  });
  latest_prices =
      λ currency id variation. record { variation = "red"; item_price = pos 60_000 } ∷ [];
  default_prices =
      λ currency id variation. record { variation = "red"; item_price = pos 70_000 } ∷ [];
  commissions_from_net = false;
}

abbrev two_chairs : List (OrderedItem Amount)
two_chairs =
    record {
      item_id = some "chair";
      entity_group = none;
      entity_id = none;
      entity_name = none;
      variation = some "red";
      quantity = pos 20_000;
      note = none;
    }
    ∷ []

abbrev chairs : CalculatedItem Amount
chairs = record {
  variation = "red";
  item_class = "";
  total_amount = pos 120_000;
  tax_percent = pos 200_000;
  item_id = "chair";
  seller_account_id = "seller";
  original_unit_amount = pos 70_000;
  unit_amount = pos 60_000;
  name = "Chair";
  tax_amount = pos 20_000;
  un_tax_amount = pos 100_000;
  quantity = pos 20_000;
  app_comission_percent = pos 100_000;
  app_comission_amount = pos 12_000;
}

abbrev vat : TaxDto Amount
vat = record {
  tax_name = "VAT - DEFAULT";
  full_amount = pos 120_000;
  percent = pos 200_000;
  tax_amount = pos 20_000;
  untax_amount = pos 100_000;
}

abbrev calculation : Calculation Amount
calculation = record {
  items = chairs ∷ [];
  total_amount = pos 120_000;
  total_tax_amount = pos 20_000;
  taxes = vat ∷ [];
}

calculated_lem :
    calculate_total_amount fractions catalogue "DEFAULT" "TRY" two_chairs ≡ ok calculation
unfolding calculate_total_amount calculate_items calculate_item price_item is_unidentified
    utf16_length join generate_tax_dto calculate_tax_amount calculate_untaxed_price
    calculate_comission_amount_by_percent add_number_values plus_values minus_number_values
    minus_values multiply_number_values times_values divide_number_values ◌+ℤ◌ ◌-ℤ◌ ◌*ℤ◌
calculated_lem = refl

calculate_total_amount-sum_example :
    (pos 120_000 ≡ add_each fractions (pos 0) (pos 120_000 ∷ []))
    × (pos 20_000 ≡ add_each fractions (pos 0) (pos 20_000 ∷ []))
    × All (IsPriced fractions catalogue) (chairs ∷ [])
calculate_total_amount-sum_example =
    calculate_total_amount-sum fractions catalogue "DEFAULT" "TRY" two_chairs calculated_lem

abbrev init : PaymentInit Amount
init = record {
  type = PaymentType.purchase;
  currency = "TRY";
  customer_account_id = "customer";
  refund_request_id = none;
  sale_mode = some " ";
  items = two_chairs;
  fail_on_payment_channel_failure = none;
}

abbrev begun : Payment
begun = new_payment (λ n. n) "payment" (λ _. "line") 0 init calculation

begun_lem :
    generate_entity fractions (λ n. n) catalogue ("customer" ∷ []) "payment" (λ _. "line") 0 init
    ≡ ok begun
unfolding generate_entity sale_mode_of is_blank calculate_total_amount calculate_items
    calculate_item price_item is_unidentified utf16_length join generate_tax_dto
    calculate_tax_amount calculate_untaxed_price calculate_comission_amount_by_percent
    add_number_values plus_values minus_number_values minus_values multiply_number_values
    times_values divide_number_values ◌+ℤ◌ ◌-ℤ◌ ◌*ℤ◌
begun_lem = refl
