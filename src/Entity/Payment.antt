-- ===== src/Entity/Payment.antt =====
-- libs/postral-entities/src/entity/payment.entity.ts and payment-item.entity.ts. Money, quantities
-- and percentages are `MoneyDbField` columns: amounts of four decimals. Relations to other tables
-- (accounts, addresses, snapshots, reports) and the note texts are left out.
use postral_core.Prelude.{ℕ, String, Bool, Option, List, Field}
use postral_core.Amount.{Amount}
use postral_core.Entity.Status.{PaymentType, PaymentStatus, PaymentErrorStatus}

pub record PaymentItem : Type 0 where
  pub id : String
  pub item_id : String
  pub variation : String
  pub name : String
  pub quantity : Amount
  pub total_amount : Amount
  pub original_unit_amount : Amount
  pub unit_amount : Amount
  pub tax_percent : Amount
  pub tax_amount : Amount
  pub un_tax_amount : Amount
  pub seller_account_id : Field
  pub refunded : Bool
  pub refund_count : Amount
  pub item_class : String
  pub app_comission_amount : Amount
  pub app_comission_percent : Amount

-- Times are in milliseconds.
pub record Payment : Type 0 where
  pub id : String
  pub type : PaymentType
  pub total_amount : Amount
  pub tax_amount : Amount
  pub currency : String
  pub items : List PaymentItem
  pub customer_account_id : Option String
  pub payment_status : PaymentStatus
  pub error_status : PaymentErrorStatus
  pub created_at : ℕ
  pub refund_request_id : Option String
  pub refund_approval_token : Option String
  pub refund_approval_expires_at : Option ℕ
  pub include_in_report_digestion : Bool
  pub open_payment : Bool
  pub external_platform_id : Option String
  pub fail_on_payment_channel_failure : Bool
