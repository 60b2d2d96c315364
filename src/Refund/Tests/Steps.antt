-- ===== src/Refund/Tests/Steps.antt =====
-- A request for one piece, from its creation to its approval.
use mathlib.Core.Option.{some-injective}
use mathlib.Core.Path.{subst}
use postral_core.Prelude.{
  ◌∙◌, String, ◌≡◌, refl, ap, Bool, false, Option, none, some, [], ◌∷◌, find, ok, err, pos, ◌+ℤ◌,
  ◌-ℤ◌, ◌*ℤ◌, ◌≤ℤ◌, arith, is_blank, utf16_length, value, opt_eq,
}
use postral_core.Amount.{
  proportion, add_number_values, plus_values, minus_number_values, minus_values,
}
use postral_core.Amount.Fractions.{fractions, fractions-IsExact}
use postral_core.Entity.Status.{RefundRequestStatus}
use postral_core.Entity.Payment.{Payment, PaymentItem}
use postral_core.Entity.Refund.{RefundRequest}
use postral_core.Refund.Failure.{approval_in_progress}
use postral_core.Refund.Checks.{
  assert_payment_is_refundable, assert_pending_refund_request, assert_no_approval_in_progress,
  get_payment_item, check_fields, check_items, validate_item_input, validate_refund_reasons,
  validate_note, assert_items_belong_to_single_seller, check_quantity, validate_refund_items,
  reserved_from, check_reserved, check_all_reserved, validate_new_refund_request,
}
use postral_core.Refund.Build.{
  build_item, allocate_amount, is_final_quantity, build_requested_item, build_refund_request_items,
  build_refund_request_entity,
}
use postral_core.Refund.Store.{
  has_payment_id, has_item_id, Store, with_payment_lock, update_payment, insert_request, add_refund,
  add_refunds,
}
use postral_core.Refund.Service.{
  insert_new_request, create_refund_request, resolve_refund_request, reject_request,
}
use postral_core.Refund.Approval.{
  take_lease, claim_request, claim_approval, finish_request, finish_approval, approve_request,
  RefundPayment,
}
use postral_core.Refund.System.{start_refund, start_or_resume}
use postral_core.Refund.Lease.{
  claim_approval-excludes, reject_request-excluded, finish_approval-once,
}
use postral_core.Refund.Release.{IsReleased, approve_request-IsReleased}
use postral_core.Refund.Again.{start_refund-again}
use postral_core.Refund.Reservation.Invariant.{IsReserved}
use postral_core.Refund.Reservation.Steps.{
  created, Reach, start, later, IsUnrefunded, Reach-IsReserved, refund_count_le,
}
use postral_core.Refund.Tests.Data.{chairs, purchase, tables, one_piece}
use postral_core.Refund.Tests.Items.{first_piece}

abbrev request : Option String → String → RefundRequest
request key actor = record {
  id = "request";
  idempotency_key = key;
  payment_id = "payment";
  status = RefundRequestStatus.pending;
  items = first_piece ∷ [];
  requested_by_account_id = actor;
  requested_by_payment_account_id = some "customer";
  requested_to_payment_account_id = value "seller";
  currency = "TRY";
  reason_keys = "DEFECTIVE" ∷ [];
  request_note = none;
  resolution_note = none;
  resolved_by_account_id = none;
}

abbrev requested : Store
requested = insert_request (request none "user") tables

created_lem :
    create_refund_request fractions "request" "user" one_piece tables
    ≡ ok (requested, request none "user")
unfolding create_refund_request insert_new_request with_payment_lock validate_new_refund_request
    assert_payment_is_refundable validate_item_input check_items check_fields
    validate_refund_reasons validate_note assert_items_belong_to_single_seller check_quantity
    validate_refund_items reserved_from check_reserved check_all_reserved get_payment_item
    build_refund_request_entity build_refund_request_items build_requested_item build_item
    allocate_amount is_final_quantity add_number_values plus_values minus_number_values minus_values
    proportion ◌+ℤ◌ ◌-ℤ◌ ◌*ℤ◌ is_blank utf16_length
created_lem = refl

abbrev claimed : Store
claimed = update_payment "payment" (take_lease 1_000 "token") requested

claimed_lem :
    claim_approval fractions 1_000 "token" (request none "user") requested
    ≡ ok (claimed, (request none "user", some "token"))
unfolding claim_approval claim_request assert_no_approval_in_progress assert_pending_refund_request
    with_payment_lock validate_new_refund_request assert_payment_is_refundable validate_item_input
    check_items check_fields validate_refund_reasons validate_note
    assert_items_belong_to_single_seller check_quantity validate_refund_items reserved_from
    check_reserved check_all_reserved get_payment_item build_refund_request_entity
    build_refund_request_items build_requested_item build_item allocate_amount is_final_quantity
    add_number_values plus_values minus_number_values minus_values proportion ◌+ℤ◌ ◌-ℤ◌ ◌*ℤ◌
    is_blank utf16_length
claimed_lem = refl

abbrev approved : RefundRequest
approved = record (request none "user") {
  status = RefundRequestStatus.approved;
  resolved_by_account_id = some "seller";
  resolution_note = some "sorry";
}

abbrev approved_tables : Store
approved_tables = record {
  payments = record purchase { items = record chairs { refund_count = pos 10_000 } ∷ [] } ∷ [];
  requests = approved ∷ [];
}

approved_lem :
    finish_approval fractions "token" "seller" (some "sorry") (request none "user") claimed
    ≡ ok (approved_tables, approved)
unfolding finish_approval finish_request resolve_refund_request add_refunds add_refund
    assert_pending_refund_request with_payment_lock validate_new_refund_request
    assert_payment_is_refundable validate_item_input check_items check_fields
    validate_refund_reasons validate_note assert_items_belong_to_single_seller check_quantity
    validate_refund_items reserved_from check_reserved check_all_reserved get_payment_item
    build_refund_request_entity build_refund_request_items build_requested_item build_item
    allocate_amount is_final_quantity add_number_values plus_values minus_number_values minus_values
    proportion ◌+ℤ◌ ◌-ℤ◌ ◌*ℤ◌ is_blank utf16_length
approved_lem = refl

abbrev system_tables : Store
system_tables = insert_request (request (some "key") "system") tables

system_lem :
    start_refund fractions "request" (some "key") one_piece tables
    ≡ ok (system_tables, request (some "key") "system")
unfolding start_refund start_or_resume insert_new_request with_payment_lock
    validate_new_refund_request assert_payment_is_refundable validate_item_input check_items
    check_fields validate_refund_reasons validate_note assert_items_belong_to_single_seller
    check_quantity validate_refund_items reserved_from check_reserved check_all_reserved
    get_payment_item build_refund_request_entity build_refund_request_items build_requested_item
    build_item allocate_amount is_final_quantity add_number_values plus_values minus_number_values
    minus_values proportion ◌+ℤ◌ ◌-ℤ◌ ◌*ℤ◌ is_blank utf16_length
system_lem = refl

find-single : {A : Type 0} (test : A → Bool) (x : A) {y : A} → find test (x ∷ []) ≡ some y → x ≡ y
find-single test x h = ground arith

fresh_payments : IsUnrefunded tables.payments
fresh_payments pid iid p i hp hi =
    let same = find-single (has_payment_id pid) purchase hp in
    let row =
      find-single (has_item_id iid) chairs
        (ap (λ (p : Payment). find (has_item_id iid) p.items) same ∙ hi) in
    subst (λ (i : PaymentItem). (i.refund_count ≡ pos 0) × (pos 0 ≤ℤ i.quantity)) row
      (refl, omega arith)

requested-Reach : Reach fractions requested
requested-Reach =
    later (start tables.payments fresh_payments) (created "request" "user" one_piece tt created_lem)

Reach-IsReserved_example : IsReserved requested
Reach-IsReserved_example = Reach-IsReserved fractions-IsExact requested-Reach

refund_count_le_example : (pos 0 ≤ℤ pos 0) × (pos 0 ≤ℤ pos 30_000)
refund_count_le_example =
    refund_count_le fractions-IsExact requested-Reach "payment" "line" purchase chairs refl refl

claim_approval-excludes_example : ¬ (
    claim_approval fractions 2_000 "other" (request none "user") claimed
    ≡ ok (claimed, (request none "user", some "other")))
claim_approval-excludes_example =
    claim_approval-excludes fractions 1_000 2_000 "token" "other" (request none "user")
      (request none "user") requested refl (omega arith) refl claimed_lem

reject_request-excluded_example :
    reject_request 2_000 "seller" "request" none claimed (take_lease 1_000 "token" purchase)
    ≡ err approval_in_progress
reject_request-excluded_example =
    reject_request-excluded fractions 1_000 2_000 "token" "seller" "request" none
      (request none "user") requested refl (omega arith) claimed_lem
      (take_lease 1_000 "token" purchase) refl

finish_approval-once_example : ¬ (
    finish_approval fractions "token" "seller" none (request none "user") approved_tables
    ≡ ok (approved_tables, approved))
finish_approval-once_example =
    finish_approval-once fractions "token" "seller" "seller" (some "sorry") none
      (request none "user") (request none "user") claimed refl approved_lem

abbrev pay : RefundPayment
pay r s = (s, ok tt)

requested-IsReleased : IsReleased "token" "payment" requested
requested-IsReleased q h =
    subst (λ (q : Payment). opt_eq q.refund_approval_token (some "token") ≡ false)
      (some-injective _ _ h) refl

approve_request-IsReleased_example :
    IsReleased "token" "payment" (
      (approve_request fractions pay 1_000 "token" (request none "user") "seller" none requested).0)
approve_request-IsReleased_example =
    approve_request-IsReleased fractions pay 1_000 "token" (request none "user") "seller" none
      requested requested-IsReleased

start_refund-again_example :
    start_refund fractions "other" (some "key") one_piece system_tables
    ≡ ok (system_tables, request (some "key") "system")
start_refund-again_example =
    start_refund-again fractions "request" "other" (some "key") one_piece tables system_lem
