-- ===== src/Entity/Refund.antt =====
-- libs/postral-entities/src/entity/refund-request.entity.ts and refund-request-item.entity.ts.
use postral_core.Prelude.{String, Option, List, Field}
use postral_core.Amount.{Amount}
use postral_core.Entity.Status.{RefundRequestStatus}

-- A quotient of two numbers before the database rounds it.
pub data Quotient : Type 0 where
  over : Amount → Amount → Quotient

pub record RefundRequestItem : Type 0 where
  pub payment_item_id : String
  pub real_item_id : String
  pub variation : String
  pub refund_count : Amount
  pub item_name : String
  pub unit_amount : Amount
  pub unit_amount_without_tax : Quotient
  pub refund_amount : Amount
  pub refund_amount_without_tax : Amount
  pub refund_tax_amount : Amount
  pub item_class : String
  pub app_comission_amount : Amount
  pub app_comission_percent : Amount

pub record RefundRequest : Type 0 where
  pub id : String
  pub idempotency_key : Option String
  pub payment_id : String
  pub status : RefundRequestStatus
  pub items : List RefundRequestItem
  pub requested_by_account_id : String
  pub requested_by_payment_account_id : Option String
  pub requested_to_payment_account_id : Field
  pub currency : String
  pub reason_keys : List String
  pub request_note : Option String
  pub resolution_note : Option String
  pub resolved_by_account_id : Option String
