-- ===== src/Channel/Operations.antt =====
-- The operations of a payment at its channels, in `PaymentOperationManagementService`. What a channel
-- answers is an argument; refunds that carry a plan are in Settlement.
use postral_core.Prelude.{
  String, Bool, false, ◌&&◌, ◌||◌, Option, none, some, List, [], ◌∷◌, map, filter, any, Result, ok,
  err, update_where, opt_eq, is_empty, pos, str_eq, if◌then◌else◌,
}
use postral_core.Amount.{Amount, BigJs, add_number_values}
use postral_core.Entity.Status.{
  PaymentType, PaymentOperationStatus, is_purchase, operation_is_waiting, operation_is_ready,
  operation_is_completed, operation_is_failed,
}
use postral_core.Entity.Operation.{PaymentChannelOperation, FeePayer}

-- libs/payment-common/src/dto/payment-channel-status.ts
pub record ChannelStatus : Type 0 where
  pub payment_channel_id : String
  pub payment_channel_operation_id : String
  pub payment_status : PaymentOperationStatus
  pub provider_fee : Option Amount
  pub fee_cut_instantly : Option Bool

-- A call of a channel fails, or an operation that was fired does not complete.
pub data OperationFailure : Type 0 where
  channel_failed not_fired : OperationFailure

abbrev pub Answer : Type 0
Answer = PaymentChannelOperation → Result OperationFailure ChannelStatus

abbrev or_keep : {A : Type 0} → Option A → A → A
or_keep none x = x
or_keep (some y) x = y

-- `savePaymentChannelRecord` without a refund plan; the flag is the setting
-- `sellerPaysPaymentServiceFee`.
unfoldable pub save_payment_channel_record :
    Bool → ChannelStatus → String → PaymentChannelOperation → PaymentChannelOperation
save_payment_channel_record seller_pays result payment_id o = record o {
  operation_id = some result.payment_channel_operation_id;
  payment_id = payment_id;
  payment_channel_id = result.payment_channel_id;
  status = result.payment_status;
  provider_fee = or_keep result.provider_fee o.provider_fee;
  fee_cut_instantly = or_keep result.fee_cut_instantly o.fee_cut_instantly;
  provider_fee_debit_from = if seller_pays then FeePayer.seller else FeePayer.platform;
}

abbrev pub of_payment : String → (PaymentOperationStatus → Bool) → PaymentChannelOperation → Bool
of_payment id test o = str_eq o.payment_id id && test o.status

unfoldable pub has_ongoing_payment_operations : String → List PaymentChannelOperation → Bool
has_ongoing_payment_operations id operations =
    any
      (of_payment id
        (λ s. operation_is_ready s || operation_is_waiting s || operation_is_completed s))
      operations

unfoldable pub has_failed_payment_operations : String → List PaymentChannelOperation → Bool
has_failed_payment_operations id operations = any (of_payment id operation_is_failed) operations

-- `cancelPaymentOperationsByPaymentId`: whatever the channel says, the operation has failed.
unfoldable pub cancel_payment_operations :
    String → List PaymentChannelOperation → List PaymentChannelOperation
cancel_payment_operations id operations =
    update_where (λ o. of_payment id operation_is_waiting o && is_purchase o.operation_type)
      (λ (o : PaymentChannelOperation). record o { status = PaymentOperationStatus.failed })
      operations

module _ (b : BigJs Amount) where
  unfoldable pub total_paid_or_authorized_of : String → List PaymentChannelOperation → Amount
  total_paid_or_authorized_of id operations = add_number_values b (
      map (λ (o : PaymentChannelOperation). o.amount)
        (filter (of_payment id (λ s. operation_is_ready s || operation_is_completed s)) operations))

module _ (seller_pays : Bool) (fire : Answer) where
  unfoldable pub fire_one :
      PaymentChannelOperation
      → Result OperationFailure ChannelStatus
      → List PaymentChannelOperation
      → List PaymentChannelOperation × Result OperationFailure (Unit {0})
  fire_one o (err e) operations = (operations, err e)
  fire_one o (ok result) operations =
      if operation_is_completed result.payment_status
      then (
        update_where (λ (q : PaymentChannelOperation). str_eq q.id o.id)
            (λ _. save_payment_channel_record seller_pays result o.payment_id o) operations,
        ok tt,
      )
      else (operations, err not_fired)

  -- the loop of `firePaymentOperationsByPaymentId`; what was saved before a throw stays
  unfoldable pub fire_each :
      List PaymentChannelOperation
      → List PaymentChannelOperation
      → List PaymentChannelOperation × Result OperationFailure (Unit {0})
  unfolding fire_one
  fire_each [] operations = (operations, ok tt)
  fire_each (o ∷ os) operations =
      let (operations', fired) = fire_one o (fire o) operations in
      elim fired [ err e ↦ (operations', err e) | ok _ ↦ fire_each os operations' ]

  unfoldable pub fire_payment_operations :
      String
      → List PaymentChannelOperation
      → List PaymentChannelOperation × Result OperationFailure (Unit {0})
  unfolding fire_each
  fire_payment_operations id operations =
      fire_each (filter (of_payment id operation_is_ready) operations) operations

module _ (seller_pays : Bool) (check : Answer) where
  unfoldable pub check_one :
      PaymentChannelOperation
      → List PaymentChannelOperation
      → Result OperationFailure ChannelStatus
      → List PaymentChannelOperation × Result OperationFailure (Unit {0})
  check_one o operations (err e) = (operations, err e)
  check_one o operations (ok result) = (
    update_where (λ (q : PaymentChannelOperation). str_eq q.id o.id)
        (λ _. save_payment_channel_record seller_pays result o.payment_id o) operations,
    ok tt,
  )

  -- the loop of `checkAndUpdateOperationStatusesRaw`; an operation without a channel ID is left
  unfoldable pub check_each :
      List PaymentChannelOperation
      → List PaymentChannelOperation
      → List PaymentChannelOperation × Result OperationFailure (Unit {0})
  unfolding check_one
  check_each [] operations = (operations, ok tt)
  check_each (o ∷ os) operations =
      let (operations', checked) =
        if is_empty o.operation_id then (operations, ok tt) else check_one o operations (check o) in
      elim checked [ err e ↦ (operations', err e) | ok _ ↦ check_each os operations' ]

  -- `checkAndUpdateOperationStatuses`
  unfoldable pub check_and_update_operation_statuses :
      String
      → List PaymentChannelOperation
      → List PaymentChannelOperation × Result OperationFailure (Unit {0})
  unfolding check_each
  check_and_update_operation_statuses payment_id operations =
      check_each (filter (of_payment payment_id operation_is_waiting) operations) operations

  -- `checkAndUpdateOperationStatusByOpId`, by the ID that the channel gave
  unfoldable pub check_and_update_operation_status_by_op_id :
      String
      → List PaymentChannelOperation
      → List PaymentChannelOperation × Result OperationFailure (Unit {0})
  unfolding check_each
  check_and_update_operation_status_by_op_id operation_id operations =
      check_each
        (filter
          (λ (o : PaymentChannelOperation).
            opt_eq o.operation_id (some operation_id) && operation_is_waiting o.status)
          operations)
        operations

-- `createOpenPaymentOperation`; the ID is the one that the database gives.
unfoldable pub create_open_payment_operation :
    String → String → Amount → String → PaymentChannelOperation
create_open_payment_operation id payment_id amount currency = record {
  id = id;
  payment_channel_id = "OPEN_PAYMENT";
  operation_id = some "OPEN_PAYMENT";
  redirect_url = "";
  amount = amount;
  operation_type = PaymentType.purchase;
  currency = currency;
  status = PaymentOperationStatus.completed;
  payment_id = payment_id;
  original_operation_id = none;
  refund_plan = none;
  settled_refund_item_ids = none;
  provider_fee = pos 0;
  provider_fee_debit_from = FeePayer.platform;
  fee_cut_instantly = false;
}
