-- ===== src/Entity/Operation.antt =====
-- libs/postral-entities/src/entity/payment-channel-operation.entity.ts: one capture or one refund at
-- a payment channel. The times and the return URL are left
-- out. libs/payment-common/src/dto/refund-channel-plan.dto.ts: how a refund is split over its lines.
use postral_core.Prelude.{String, Bool, Option, List}
use postral_core.Amount.{Amount}
use postral_core.Entity.Status.{PaymentType, PaymentOperationStatus}

-- Who pays the fee of the provider.
pub data FeePayer : Type 0 where
  seller platform : FeePayer

-- Amounts are decimal texts.
pub record RefundChannelLine : Type 0 where
  pub original_payment_item_id : String
  pub nominal_amount : String
  pub provider_amount : String

pub record RefundChannelPlan : Type 0 where
  pub original_operation_id : String
  pub original_channel_operation_id : String
  pub rounding_account_id : Option String
  pub lines : List RefundChannelLine

pub record PaymentChannelOperation : Type 0 where
  pub id : String
  pub payment_channel_id : String
  pub operation_id : Option String
  pub redirect_url : String
  pub amount : Amount
  pub operation_type : PaymentType
  pub currency : String
  pub status : PaymentOperationStatus
  pub payment_id : String
  pub original_operation_id : Option String
  pub refund_plan : Option RefundChannelPlan
  pub settled_refund_item_ids : Option (List String)
  pub provider_fee : Amount
  pub provider_fee_debit_from : FeePayer
  pub fee_cut_instantly : Bool
