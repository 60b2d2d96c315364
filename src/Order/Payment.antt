-- ===== src/Order/Payment.antt =====
-- `PaymentService.generateEntityFromInitDto` of
-- libs/payment-core-webservice/src/service/payment.service.ts for an order: the payment that an order
-- begins with. Session IDs, note texts and the snapshots of accounts and addresses are left out.
use postral_core.Prelude.{
  ℕ, suc, String, Bool, true, false, not, ◌&&◌, Option, none, some, List, [], ◌∷◌, Result, ok, err,
  ◌>>=◌, ◌>>◌, throw_if, includes, is_empty, is_blank, value, pos, if◌then◌else◌,
}
use postral_core.Amount.{Amount, BigJs}
use postral_core.Entity.Status.{PaymentType, PaymentStatus, PaymentErrorStatus, is_purchase}
use postral_core.Entity.Payment.{Payment, PaymentItem}
use postral_core.Order.{
  OrderFailure, OrderedItem, Catalogue, CalculatedItem, Calculation, calculate_total_amount,
}

-- `PaymentInitDTO`
pub record PaymentInit (N : Type 0) : Type 0 where
  pub type : PaymentType
  pub currency : String
  pub customer_account_id : String
  pub refund_request_id : Option String
  pub sale_mode : Option String
  pub items : List (OrderedItem N)
  pub fail_on_payment_channel_failure : Option Bool

pub data InitFailure : Type 0 where
  customer_not_found refund_request_missing : InitFailure
  not_calculated : OrderFailure → InitFailure

-- `saleMode === undefined || saleMode.trim() === ''`
unfoldable pub sale_mode_of : Option String → String
sale_mode_of none = "DEFAULT"
sale_mode_of (some mode) = if is_blank mode then "DEFAULT" else mode

abbrev or_false : Option Bool → Bool
or_false none = false
or_false (some b) = b

-- The columns of amounts keep four decimals: `column` is the `toFixed(4)` of `MoneyDbField`
-- (libs/postral-entities/src/entity/base.ts), which each column applies by itself.
module _ {N : Type 0} (column : N → Amount) where
  -- The row of an item, with the ID that the database gives it.
  unfoldable pub new_item : String → CalculatedItem N → PaymentItem
  new_item id i = record {
    id = id;
    item_id = i.item_id;
    variation = i.variation;
    name = i.name;
    quantity = column i.quantity;
    total_amount = column i.total_amount;
    original_unit_amount = column i.original_unit_amount;
    unit_amount = column i.unit_amount;
    tax_percent = column i.tax_percent;
    tax_amount = column i.tax_amount;
    un_tax_amount = column i.un_tax_amount;
    seller_account_id = value i.seller_account_id;
    refunded = false;
    refund_count = pos 0;
    item_class = i.item_class;
    app_comission_amount = column i.app_comission_amount;
    app_comission_percent = column i.app_comission_percent;
  }

  unfoldable pub new_items : (ℕ → String) → ℕ → List (CalculatedItem N) → List PaymentItem
  new_items uuid n [] = []
  new_items uuid n (i ∷ is) = new_item (uuid n) i ∷ new_items uuid (suc n) is

  unfoldable pub new_payment : String → (ℕ → String) → ℕ → PaymentInit N → Calculation N → Payment
  new_payment id uuid now init calculation = record {
    id = id;
    type = init.type;
    total_amount = column calculation.total_amount;
    tax_amount = column calculation.total_tax_amount;
    currency = init.currency;
    items = new_items uuid 0 calculation.items;
    customer_account_id = some init.customer_account_id;
    payment_status = PaymentStatus.initiated;
    error_status = PaymentErrorStatus.none;
    created_at = now;
    refund_request_id = init.refund_request_id;
    refund_approval_token = none;
    refund_approval_expires_at = none;
    include_in_report_digestion = true;
    open_payment = false;
    external_platform_id = none;
    fail_on_payment_channel_failure = or_false init.fail_on_payment_channel_failure;
  }

abbrev as_init : {A : Type 0} → Result OrderFailure A → Result InitFailure A
as_init (ok a) = ok a
as_init (err e) = err (not_calculated e)

module _ {N : Type 0} (b : BigJs N) (column : N → Amount) (catalogue : Catalogue N)
    (accounts : List String) where
  unfoldable pub generate_entity :
      String → (ℕ → String) → ℕ → PaymentInit N → Result InitFailure Payment
  generate_entity id uuid now init = do
    throw_if (not (includes accounts init.customer_account_id)) customer_not_found
    throw_if (not (is_purchase init.type) && is_empty init.refund_request_id) refund_request_missing
    calculation ←
        as_init (
          calculate_total_amount b catalogue (sale_mode_of init.sale_mode) init.currency init.items)
    ok (new_payment column id uuid now init calculation)
