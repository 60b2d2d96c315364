-- ===== src/Ledger/Tests.antt =====
-- A payment for three items of two sellers, and the properties at it.
use postral_core.Prelude.{
  ◌≡◌, refl, ap, String, true, false, none, some, List, [], ◌∷◌, map, ok, pos, ◌+ℤ◌, ◌*ℤ◌, Field,
  value, field_eq,
}
use postral_core.Amount.{Amount, add_number_values, plus_values}
use postral_core.Amount.Fractions.{fractions, fractions-IsExact}
use postral_core.Entity.Status.{PaymentType, PaymentStatus, PaymentErrorStatus}
use postral_core.Entity.Payment.{Payment, PaymentItem}
use postral_core.Ledger.{
  TransactionType, AccountPaymentTransaction, add_item, post_item, post_items, first_transaction,
  customer_transaction, transactions_of, seller_rotation, customer_rotation,
  delete_old_transactions, entity_with, to_entities, save_rows, create_new, from_payment,
}
use postral_core.Ledger.Sellers.{IsPerAccount}
use postral_core.Ledger.Sums.{in_items, in_transactions, post_items-per_seller}
use postral_core.Ledger.Balance.{posted, transactions_of-balanced}
use postral_core.Ledger.Again.{from_payment-again}
use postral_core.Ledger.Content.{content}

abbrev line : String → Amount → Amount → PaymentItem
line seller total tax = record {
  id = "line";
  item_id = "chair";
  variation = "red";
  name = "Chair";
  quantity = pos 10_000;
  total_amount = total;
  original_unit_amount = total;
  unit_amount = total;
  tax_percent = pos 200_000;
  tax_amount = tax;
  un_tax_amount = total;
  seller_account_id = value seller;
  refunded = false;
  refund_count = pos 0;
  item_class = "furniture";
  app_comission_amount = pos 0;
  app_comission_percent = pos 0;
}

abbrev lines : List PaymentItem
lines =
    line "anna" (pos 120_000) (pos 20_000)
    ∷ line "bob" (pos 60_000) (pos 10_000)
    ∷ line "anna" (pos 30_000) (pos 5_000)
    ∷ []

abbrev sale : Payment
sale = record {
  id = "payment";
  type = PaymentType.purchase;
  total_amount = pos 210_000;
  tax_amount = pos 35_000;
  currency = "TRY";
  items = lines;
  customer_account_id = some "customer";
  payment_status = PaymentStatus.completed;
  error_status = PaymentErrorStatus.none;
  created_at = 0;
  refund_request_id = none;
  refund_approval_token = none;
  refund_approval_expires_at = none;
  include_in_report_digestion = true;
  open_payment = false;
  external_platform_id = none;
  fail_on_payment_channel_failure = false;
}

abbrev row : String → TransactionType → Amount → Amount → AccountPaymentTransaction
row account type amount tax = record {
  id = "new";
  corelation_id = "c";
  account_id = account;
  payment_id = "payment";
  payment_seller_order_id = none;
  rounding_operation_id = none;
  type = type;
  status = PaymentStatus.completed;
  amount = amount;
  tax_amount = tax;
}

abbrev rows : List AccountPaymentTransaction
rows =
    row "anna" TransactionType.credit (pos 150_000) (pos 25_000)
    ∷ row "bob" TransactionType.credit (pos 60_000) (pos 10_000)
    ∷ row "customer" TransactionType.debit (pos 210_000) (pos 35_000)
    ∷ []

saved_lem : from_payment fractions (λ _. "new") 0 "c" sale [] ≡ (rows, ok rows)
unfolding from_payment create_new save_rows to_entities entity_with delete_old_transactions
    transactions_of post_items post_item add_item first_transaction customer_transaction
    seller_rotation customer_rotation add_number_values plus_values ◌+ℤ◌ ◌*ℤ◌
saved_lem = refl

post_items-per_seller_example :
    IsPerAccount (post_items fractions "c" sale [] lines)
    × ((account : Field)
        → (in_transactions
              (field_eq account)
              (λ d. d.amount)
              (post_items fractions "c" sale [] lines)
            ≡ in_items (field_eq account) (λ i. i.total_amount) lines)
          × (in_transactions
                (field_eq account)
                (λ d. d.tax_amount)
                (post_items fractions "c" sale [] lines)
              ≡ in_items (field_eq account) (λ i. i.tax_amount) lines))
post_items-per_seller_example = post_items-per_seller fractions-IsExact "c" sale lines

total_lem : sale.total_amount ≡ pos 120_000 +ℤ (pos 60_000 +ℤ (pos 30_000 +ℤ pos 0))
unfolding ◌+ℤ◌
total_lem = refl

tax_lem : sale.tax_amount ≡ pos 20_000 +ℤ (pos 10_000 +ℤ (pos 5_000 +ℤ pos 0))
unfolding ◌+ℤ◌
tax_lem = refl

transactions_of-balanced_example :
    (posted TransactionType.credit (λ d. d.amount) (transactions_of fractions "c" sale)
      ≡ posted TransactionType.debit (λ d. d.amount) (transactions_of fractions "c" sale))
    × (posted TransactionType.credit (λ d. d.tax_amount) (transactions_of fractions "c" sale)
        ≡ posted TransactionType.debit (λ d. d.tax_amount) (transactions_of fractions "c" sale))
transactions_of-balanced_example =
    transactions_of-balanced fractions-IsExact "c" sale total_lem tax_lem

answer_lem : (from_payment fractions (λ _. "new") 0 "c" sale []).1 ≡ ok rows
answer_lem = ap (λ r. r.1) saved_lem

from_payment-again_example :
    (new' : List AccountPaymentTransaction) × ((from_payment fractions
        (λ _. "newer")
        3
        "d"
        sale
        (from_payment fractions (λ _. "new") 0 "c" sale []).0).1
      ≡ ok new')
    × (map content
          (from_payment fractions
            (λ _. "newer")
            3
            "d"
            sale
            (from_payment fractions (λ _. "new") 0 "c" sale []).0).0
        ≡ map content (from_payment fractions (λ _. "new") 0 "c" sale []).0)
from_payment-again_example =
    from_payment-again fractions (λ _. "new") (λ _. "newer") 0 3 "c" "d" sale [] answer_lem
