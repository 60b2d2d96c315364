-- ===== src/Orders/Tests.antt =====
-- The orders of an open payment for three items of two sellers.
use postral_core.Prelude.{
  ◌≡◌, refl, ap, String, true, false, none, some, List, [], ◌∷◌, map, ok, pos, ◌+ℤ◌, ◌-ℤ◌, ◌*ℤ◌,
  All, value, join,
}
use postral_core.Amount.{Amount, minus_number_values, minus_values}
use postral_core.Amount.Fractions.{fractions}
use postral_core.Entity.Status.{PaymentType, PaymentStatus, PaymentErrorStatus}
use postral_core.Entity.Payment.{Payment, PaymentItem}
use postral_core.Tax.{calculate_untaxed_price}
use postral_core.Orders.{
  SellerPaymentOrderType, Snapshots, SellerPaymentOrderDto, SellerPaymentOrder, from_payment_item,
  group_key, new_group, add_to_group, group_order, group_orders,
}
use postral_core.Orders.Save.{
  from_dto, insert_order, save_order, add_transaction, add_transactions, add_seller_payment_orders,
  generate_seller_payment_orders,
}
use postral_core.Orders.Again.{worth, add_seller_payment_orders-again}
use postral_core.Orders.Open.{generate_seller_payment_orders-lost}

abbrev line : String → Amount → Amount → PaymentItem
line seller total tax = record {
  id = "line";
  item_id = "chair";
  variation = "red";
  name = "Chair";
  quantity = pos 10_000;
  total_amount = total;
  original_unit_amount = total;
  unit_amount = total;
  tax_percent = pos 200_000;
  tax_amount = tax;
  un_tax_amount = total;
  seller_account_id = value seller;
  refunded = false;
  refund_count = pos 0;
  item_class = "furniture";
  app_comission_amount = pos 0;
  app_comission_percent = pos 0;
}

abbrev lines : List PaymentItem
lines =
    line "anna" (pos 120_000) (pos 20_000)
    ∷ line "bob" (pos 60_000) (pos 10_000)
    ∷ line "anna" (pos 30_000) (pos 5_000)
    ∷ []

abbrev sale : Payment
sale = record {
  id = "payment";
  type = PaymentType.purchase;
  total_amount = pos 210_000;
  tax_amount = pos 35_000;
  currency = "TRY";
  items = lines;
  customer_account_id = some "customer";
  payment_status = PaymentStatus.waiting;
  error_status = PaymentErrorStatus.none;
  created_at = 0;
  refund_request_id = none;
  refund_approval_token = none;
  refund_approval_expires_at = none;
  include_in_report_digestion = true;
  open_payment = true;
  external_platform_id = none;
  fail_on_payment_channel_failure = false;
}

abbrev no_snapshots : Snapshots
no_snapshots = record {
  seller_account = none;
  seller_address = none;
  customer_account = none;
  customer_address = none;
}

abbrev order : String → String → Amount → Amount → Amount → SellerPaymentOrder
order id seller amount tax untaxed = record {
  id = id;
  amount = amount;
  tax_amount = tax;
  untaxed_amount = untaxed;
  currency = "TRY";
  payment_id = "payment";
  target_account_id = seller;
  source_account_id = "customer";
  billing_address_id = some "address";
  payment_status = PaymentStatus.waiting;
  error_status = none;
  invoice_count = 0;
  has_finalized_invoice = false;
  open_payment = false;
  seller_order_type = SellerPaymentOrderType.credit_to_seller;
  operation_note = none;
  snapshots = no_snapshots;
}

abbrev orders : List SellerPaymentOrder
orders =
    order "new" "anna" (pos 150_000) (pos 25_000) (pos 125_000)
    ∷ order "new" "bob" (pos 60_000) (pos 10_000) (pos 50_000)
    ∷ []

abbrev dtos : List SellerPaymentOrderDto
dtos = map (from_payment_item (some "address") (λ _. no_snapshots) sale) lines

saved_lem :
    add_seller_payment_orders fractions (pos 0) ◌+ℤ◌ (λ _. "new") 0 dtos [] ≡ (orders, ok tt)
unfolding add_seller_payment_orders add_transactions add_transaction save_order insert_order
    from_dto group_orders group_order group_key new_group add_to_group join from_payment_item
    calculate_untaxed_price minus_number_values minus_values ◌+ℤ◌ ◌-ℤ◌ ◌*ℤ◌
saved_lem = refl

answer_lem : (add_seller_payment_orders fractions (pos 0) ◌+ℤ◌ (λ _. "new") 0 dtos []).1 ≡ ok tt
answer_lem = ap (λ r. r.1) saved_lem

add_seller_payment_orders-again_example :
    ((add_seller_payment_orders fractions
        (pos 0)
        ◌+ℤ◌
        (λ _. "newer")
        5
        dtos
        (add_seller_payment_orders fractions (pos 0) ◌+ℤ◌ (λ _. "new") 0 dtos []).0).1
      ≡ ok tt)
    × (map worth
          (add_seller_payment_orders fractions
            (pos 0)
            ◌+ℤ◌
            (λ _. "newer")
            5
            dtos
            (add_seller_payment_orders fractions (pos 0) ◌+ℤ◌ (λ _. "new") 0 dtos []).0).0
        ≡ map worth (add_seller_payment_orders fractions (pos 0) ◌+ℤ◌ (λ _. "new") 0 dtos []).0)
add_seller_payment_orders-again_example =
    add_seller_payment_orders-again fractions (pos 0) ◌+ℤ◌ (λ _. "new") (λ _. "newer") 0 5 dtos []
      answer_lem

generate_seller_payment_orders-lost_example :
    All
      (λ r. r.open_payment ≡ false)
      (generate_seller_payment_orders fractions
        (pos 0)
        ◌+ℤ◌
        (λ _. "new")
        0
        (some "address")
        (λ _. no_snapshots)
        sale
        []).0
generate_seller_payment_orders-lost_example =
    generate_seller_payment_orders-lost fractions (pos 0) ◌+ℤ◌ (λ _. "new") 0 (some "address")
      (λ _. no_snapshots) sale [] refl tt
