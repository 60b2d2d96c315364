-- ===== src/Lifecycle/Tests.antt =====
-- A payment of 10.00 with an authorised operation, and the properties at it.
mod Run
use postral_core.Prelude.{
  ◌≡◌, refl, sym, List, true, false, none, some, [], ◌∷◌, ◌++◌, ok, err, pos, ◌+ℤ◌, ◌*ℤ◌,
}
use mathlib.Core.Path.{subst}
use postral_core.Amount.{add_number_values, plus_values}
use postral_core.Amount.Fractions.{fractions}
use postral_core.Entity.Status.{
  PaymentType, PaymentStatus, PaymentErrorStatus, PaymentOperationStatus,
}
use postral_core.Entity.Payment.{Payment}
use postral_core.Entity.Operation.{PaymentChannelOperation, FeePayer}
use postral_core.Channel.Operations.{
  Answer, channel_failed, total_paid_or_authorized_of, fire_one, fire_each, fire_payment_operations,
}
use postral_core.Lifecycle.{
  Books, operation_failed, find_payment, update_payment_by_operation_statuses, is_paid,
}
use postral_core.Lifecycle.Calls.{
  Call, saving, completing, firing, posting, begin_update, after_firing, resume, Service,
}
use postral_core.Lifecycle.Moves.{begun, updates, Move, Moves, to_list}
use postral_core.Lifecycle.Overlap.{start-posts_twice}
use postral_core.Lifecycle.Alone.{NoRepeats, Alone, idle, next}
use postral_core.Lifecycle.Once.{AloneMoves-NoRepeats}
use postral_core.Lifecycle.Lost.{update-lost}

abbrev waiting_payment : Payment
waiting_payment = record {
  id = "payment";
  type = PaymentType.purchase;
  total_amount = pos 100_000;
  tax_amount = pos 0;
  currency = "TRY";
  items = [];
  customer_account_id = some "customer";
  payment_status = PaymentStatus.waiting;
  error_status = PaymentErrorStatus.none;
  created_at = 0;
  refund_request_id = none;
  refund_approval_token = none;
  refund_approval_expires_at = none;
  include_in_report_digestion = true;
  open_payment = false;
  external_platform_id = none;
  fail_on_payment_channel_failure = false;
}

abbrev authorized : PaymentChannelOperation
authorized = record {
  id = "operation";
  payment_channel_id = "bank";
  operation_id = some "bank-1";
  redirect_url = "";
  amount = pos 100_000;
  operation_type = PaymentType.purchase;
  currency = "TRY";
  status = PaymentOperationStatus.ready;
  payment_id = "payment";
  original_operation_id = none;
  refund_plan = none;
  settled_refund_item_ids = none;
  provider_fee = pos 0;
  provider_fee_debit_from = FeePayer.platform;
  fee_cut_instantly = false;
}

abbrev books : Books
books = record { payments = waiting_payment ∷ []; operations = authorized ∷ []; posted = [] }

abbrev failed_payment : Payment
failed_payment = record waiting_payment {
  payment_status = PaymentStatus.failed;
  error_status = PaymentErrorStatus.cancelled;
}

abbrev failed_books : Books
failed_books = record books { payments = failed_payment ∷ [] }

abbrev other_payment : Payment
other_payment = record waiting_payment { id = "other" }

-- One payment has failed; a start of another one is about to save.
abbrev busy : Service
busy = record {
  books = record books { payments = failed_payment ∷ other_payment ∷ [] };
  calls = saving other_payment ∷ [];
}

abbrev refuse : Answer
refuse o = err channel_failed

abbrev saved : Service
saved = record {
  books = (resume fractions false refuse 1_000 5_000 (saving other_payment) busy.books).0;
  calls =
      to_list ((resume fractions false refuse 1_000 5_000 (saving other_payment) busy.books).1)
      ++ [];
}

refused_lem :
    fire_payment_operations false refuse "payment" (authorized ∷ [])
    ≡ (authorized ∷ [], err channel_failed)
unfolding fire_payment_operations fire_each fire_one
refused_lem = refl

paid_lem : is_paid fractions false refuse waiting_payment books ≡ true
unfolding is_paid total_paid_or_authorized_of add_number_values plus_values ◌+ℤ◌ ◌*ℤ◌
paid_lem = refl

update-lost_example :
    let (s', result) =
      update_payment_by_operation_statuses fractions false refuse 1_000 500 "payment" books in
    (result ≡ err (operation_failed channel_failed))
    × (s'.posted ≡ [])
    × (find_payment "payment" s'
        ≡ ok (record waiting_payment { payment_status = PaymentStatus.completed }))
    × (update_payment_by_operation_statuses fractions false refuse 1_000 900 "payment" s'
        ≡ (s', ok tt))
update-lost_example =
    update-lost fractions false refuse refuse 1_000 500 900 "payment" books waiting_payment
      (authorized ∷ []) channel_failed refl refl paid_lem refused_lem

-- The channel has completed the operation already.
abbrev captured : PaymentChannelOperation
captured = record authorized { status = PaymentOperationStatus.completed }

abbrev captured_books : Books
captured_books = record books { operations = captured ∷ [] }

captured_paid : is_paid fractions false refuse waiting_payment captured_books ≡ true
unfolding is_paid total_paid_or_authorized_of add_number_values plus_values ◌+ℤ◌ ◌*ℤ◌
captured_paid = refl

nothing_to_fire :
    fire_payment_operations false refuse "payment" (captured ∷ []) ≡ (captured ∷ [], ok tt)
unfolding fire_payment_operations fire_each fire_one
nothing_to_fire = refl

start-posts_twice_example :
    (s' : Books) × Moves fractions
      (record { books = captured_books; calls = [] })
      (record { books = s'; calls = [] })
    × (s'.posted ≡ "payment" ∷ "payment" ∷ [])
start-posts_twice_example =
    start-posts_twice fractions false refuse 1_000 500 waiting_payment captured_books
      (captured ∷ []) (captured ∷ []) refl refl captured_paid nothing_to_fire captured_paid
      nothing_to_fire
