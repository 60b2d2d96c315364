-- ===== src/Ledger.antt =====
-- libs/payment-core-webservice/src/service/account-payment-transaction.service.ts: what a payment
-- debits and credits to the accounts. Names, descriptions and times are left out.
pub mod Sellers
pub mod Sums
pub mod Balance
pub mod Content
pub mod Again
mod Tests
use postral_core.Prelude.{
  ℕ, suc, String, Bool, true, false, not, ◌&&◌, Option, none, some, List, [], ◌∷◌, ◌++◌, Result, ok,
  err, ◌>>=◌, any, filter, update_where, str_eq, Field, undefined, null, value, where_text,
  field_of, field_eq, if◌then◌else◌,
}
use postral_core.Amount.{Amount, BigJs, add_number_values}
use postral_core.Entity.Status.{PaymentType, PaymentStatus, is_purchase}
use postral_core.Entity.Payment.{Payment, PaymentItem}

pub data TransactionType : Type 0 where
  debit credit : TransactionType

-- `===` on them
abbrev pub same_type : TransactionType → TransactionType → Bool
same_type TransactionType.debit TransactionType.debit = true
same_type TransactionType.credit TransactionType.credit = true
same_type _ _ = false

-- libs/payment-common/src/dto/account-payment-transaction.dto.ts
pub record AccountPaymentTransactionDto : Type 0 where
  pub corelation_id : String
  pub account_id : Field
  pub payment_id : String
  pub payment_seller_order_id : Option String
  pub type : TransactionType
  pub status : PaymentStatus
  pub amount : Amount
  pub tax_amount : Amount

-- libs/postral-entities/src/entity/account-payment-transaction.entity.ts
pub record AccountPaymentTransaction : Type 0 where
  pub id : String
  pub corelation_id : String
  pub account_id : String
  pub payment_id : String
  pub payment_seller_order_id : Option String
  pub rounding_operation_id : Option String
  pub type : TransactionType
  pub status : PaymentStatus
  pub amount : Amount
  pub tax_amount : Amount

-- The column of the account takes no null.
pub data LedgerFailure : Type 0 where
  account_missing : LedgerFailure

unfoldable pub seller_rotation : Payment → TransactionType
seller_rotation p = if is_purchase p.type then TransactionType.credit else TransactionType.debit

unfoldable pub customer_rotation : Payment → TransactionType
customer_rotation p = if is_purchase p.type then TransactionType.debit else TransactionType.credit

abbrev pub has_account : Field → AccountPaymentTransactionDto → Bool
has_account k d = field_eq d.account_id k

-- The transaction of the first item of a seller.
unfoldable pub first_transaction : String → Payment → PaymentItem → AccountPaymentTransactionDto
first_transaction correlation p i = record {
  corelation_id = correlation;
  account_id = i.seller_account_id;
  payment_id = p.id;
  payment_seller_order_id = none;
  type = seller_rotation p;
  status = p.payment_status;
  amount = i.total_amount;
  tax_amount = i.tax_amount;
}

unfoldable pub customer_transaction : String → Payment → AccountPaymentTransactionDto
customer_transaction correlation p = record {
  corelation_id = correlation;
  account_id = field_of p.customer_account_id;
  payment_id = p.id;
  payment_seller_order_id = none;
  type = customer_rotation p;
  status = p.payment_status;
  amount = p.total_amount;
  tax_amount = p.tax_amount;
}

module _ (b : BigJs Amount) where
  unfoldable pub add_item :
      PaymentItem → AccountPaymentTransactionDto → AccountPaymentTransactionDto
  add_item i d = record d {
    amount = add_number_values b (d.amount ∷ i.total_amount ∷ []);
    tax_amount = add_number_values b (d.tax_amount ∷ i.tax_amount ∷ []);
  }

  -- One step of the loop over the items. The map from sellers to transactions is the list of its
  -- values, in the order in which their keys were added.
  unfoldable pub post_item :
      String
      → Payment
      → List AccountPaymentTransactionDto
      → PaymentItem
      → List AccountPaymentTransactionDto
  post_item correlation p ds i =
      if any (has_account i.seller_account_id) ds
      then update_where (has_account i.seller_account_id) (add_item i) ds
      else ds ++ (first_transaction correlation p i ∷ [])

  unfoldable pub post_items :
      String
      → Payment
      → List AccountPaymentTransactionDto
      → List PaymentItem
      → List AccountPaymentTransactionDto
  post_items correlation p ds [] = ds
  post_items correlation p ds (i ∷ is) = post_items correlation p (post_item correlation p ds i) is

  -- The transactions that `fromPayment` saves: the sellers', then the customer's.
  unfoldable pub transactions_of : String → Payment → List AccountPaymentTransactionDto
  transactions_of correlation p =
      post_items correlation p [] p.items ++ (customer_transaction correlation p ∷ [])

abbrev pub is_null : Option String → Bool
is_null none = true
is_null (some _) = false

-- The search of `deleteOldTransactions` for one transaction.
abbrev pub replaces : AccountPaymentTransactionDto → AccountPaymentTransaction → Bool
replaces d r =
    where_text d.account_id r.account_id
    && str_eq r.payment_id d.payment_id
    && same_type r.type d.type
    && is_null r.rounding_operation_id

unfoldable pub delete_old_transactions :
    List AccountPaymentTransactionDto
    → List AccountPaymentTransaction
    → List AccountPaymentTransaction
delete_old_transactions ds = filter (λ r. not (any (λ d. replaces d r) ds))

-- `toEntity`, and the row that the database makes of it with a new ID.
unfoldable pub entity_with :
    String → Field → AccountPaymentTransactionDto → Result LedgerFailure AccountPaymentTransaction
entity_with id (value account) d = ok (record {
  id = id;
  corelation_id = d.corelation_id;
  account_id = account;
  payment_id = d.payment_id;
  payment_seller_order_id = d.payment_seller_order_id;
  rounding_operation_id = none;
  type = d.type;
  status = d.status;
  amount = d.amount;
  tax_amount = d.tax_amount;
})
entity_with id _ d = err account_missing

-- `save` of several rows, which are all written or none; `uuid n` is the n-th new ID.
unfoldable pub to_entities :
    (ℕ → String)
    → ℕ
    → List AccountPaymentTransactionDto
    → Result LedgerFailure (List AccountPaymentTransaction)
to_entities uuid n [] = ok []
to_entities uuid n (d ∷ ds) = do
  r ← entity_with (uuid n) d.account_id d
  rs ← to_entities uuid (suc n) ds
  ok (r ∷ rs)

unfoldable pub save_rows :
    List AccountPaymentTransaction
    → Result LedgerFailure (List AccountPaymentTransaction)
    → List AccountPaymentTransaction × Result LedgerFailure (List AccountPaymentTransaction)
save_rows rows (err e) = (rows, err e)
save_rows rows (ok new) = (rows ++ new, ok new)

-- The old transactions are deleted before the new ones are saved, not in one transaction.
unfoldable pub create_new :
    (ℕ → String)
    → ℕ
    → List AccountPaymentTransactionDto
    → List AccountPaymentTransaction
    → List AccountPaymentTransaction × Result LedgerFailure (List AccountPaymentTransaction)
create_new uuid n ds rows = save_rows (delete_old_transactions ds rows) (to_entities uuid n ds)

-- `fromPayment` without a manager, and with the one of a transaction, which deletes nothing.
unfoldable pub from_payment :
    BigJs Amount
    → (ℕ → String)
    → ℕ
    → String
    → Payment
    → List AccountPaymentTransaction
    → List AccountPaymentTransaction × Result LedgerFailure (List AccountPaymentTransaction)
from_payment b uuid n correlation p rows = create_new uuid n (transactions_of b correlation p) rows

unfoldable pub from_payment_within :
    BigJs Amount
    → (ℕ → String)
    → ℕ
    → String
    → Payment
    → List AccountPaymentTransaction
    → Result LedgerFailure (List AccountPaymentTransaction)
from_payment_within b uuid n correlation p rows = do
  new ← to_entities uuid n (transactions_of b correlation p)
  ok (rows ++ new)
