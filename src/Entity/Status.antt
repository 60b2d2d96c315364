-- ===== src/Entity/Status.antt =====
-- libs/payment-common/src/type/status.ts, and the other enumerations that the entities hold.
use postral_core.Prelude.{Bool, true, false}

pub data PaymentType : Type 0 where
  purchase refund : PaymentType

pub data PaymentStatus : Type 0 where
  initiated waiting completed failed : PaymentStatus

-- `none` is '', null and undefined alike.
pub data PaymentErrorStatus : Type 0 where
  none failed cancelled expired : PaymentErrorStatus

pub data PaymentOperationStatus : Type 0 where
  waiting ready completed failed : PaymentOperationStatus

pub data RefundRequestStatus : Type 0 where
  pending approved rejected : RefundRequestStatus

-- The comparisons with `===` that the services make.
abbrev pub is_purchase : PaymentType → Bool
is_purchase PaymentType.purchase = true
is_purchase _ = false

abbrev pub is_waiting : PaymentStatus → Bool
is_waiting PaymentStatus.waiting = true
is_waiting _ = false

abbrev pub is_initiated : PaymentStatus → Bool
is_initiated PaymentStatus.initiated = true
is_initiated _ = false

abbrev pub is_completed : PaymentStatus → Bool
is_completed PaymentStatus.completed = true
is_completed _ = false

abbrev pub is_failed : PaymentStatus → Bool
is_failed PaymentStatus.failed = true
is_failed _ = false

abbrev pub operation_is_waiting : PaymentOperationStatus → Bool
operation_is_waiting PaymentOperationStatus.waiting = true
operation_is_waiting _ = false

abbrev pub operation_is_ready : PaymentOperationStatus → Bool
operation_is_ready PaymentOperationStatus.ready = true
operation_is_ready _ = false

abbrev pub operation_is_completed : PaymentOperationStatus → Bool
operation_is_completed PaymentOperationStatus.completed = true
operation_is_completed _ = false

abbrev pub operation_is_failed : PaymentOperationStatus → Bool
operation_is_failed PaymentOperationStatus.failed = true
operation_is_failed _ = false

abbrev pub is_pending : RefundRequestStatus → Bool
is_pending RefundRequestStatus.pending = true
is_pending _ = false

abbrev pub is_approved : RefundRequestStatus → Bool
is_approved RefundRequestStatus.approved = true
is_approved _ = false
