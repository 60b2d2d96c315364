-- ===== src/Refund/Approval.antt =====
-- The approval of a refund request in `RefundService`: a transaction that takes a lease on the
-- payment, the creation of the refund's own payment, and a transaction that finishes.
use postral_core.Prelude.{
  ℕ, ◌+◌, ◌*◌, String, not, ◌&&◌, Option, none, some, List, map, ok, err, ◌>>=◌, ◌>>◌, throw_if,
  update_where, str_eq, opt_eq, is_empty, is_falsy, if◌then◌else◌,
}
use postral_core.Amount.{Amount, BigJs}
use postral_core.Entity.Status.{RefundRequestStatus, is_approved}
use postral_core.Entity.Payment.{Payment}
use postral_core.Entity.Refund.{RefundRequest}
use postral_core.Refund.Failure.{Attempt, system_request, no_target_account, lease_changed}
use postral_core.Refund.Checks.{
  RequestedItem, stored_input, validate_note, validate_refund_items, assert_payment_is_refundable,
  assert_pending_refund_request, assert_no_approval_in_progress,
  assert_items_belong_to_single_seller,
}
use postral_core.Refund.Store.{Store, update_payment, find_request, with_payment_lock, add_refunds}
use postral_core.Refund.Service.{authorize_refund_action, resolve_refund_request}

-- The lease of an approval lasts five minutes.
abbrev pub lease_time : ℕ
lease_time = 5 * 60_000

abbrev pub take_lease : ℕ → String → Payment → Payment
take_lease now token p = record p {
  refund_approval_token = some token;
  refund_approval_expires_at = some (now + lease_time);
}

abbrev pub drop_lease : Payment → Payment
drop_lease p = record p { refund_approval_token = none; refund_approval_expires_at = none }

-- `UPDATE … WHERE id = … AND refundApprovalToken = …`
unfoldable pub release_lease : String → String → Store → Store
release_lease token payment_id s = record s {
  payments =
      update_where
        (λ (p : Payment). str_eq p.id payment_id && opt_eq p.refund_approval_token (some token))
        drop_lease s.payments;
}

-- `PaymentService.createRefundPayment`: the tables after it, and whether it threw.
abbrev pub RefundPayment : Type 0
RefundPayment = RefundRequest → Store → Store × Attempt (Unit {0})

module _ (b : BigJs Amount) where
  -- What the first transaction of `approveRequest` does with the request that it reads again. No
  -- token comes back for a system request that is approved already.
  unfoldable pub claim_request :
      ℕ
      → String
      → Store
      → Payment
      → RefundRequest
      → Attempt (Store × (RefundRequest × Option String))
  claim_request now token s p r =
      if is_approved r.status && not (is_empty r.idempotency_key) then ok (s, (r, none)) else (do
        assert_pending_refund_request r
        assert_no_approval_in_progress now p
        assert_payment_is_refundable p
        items ← validate_refund_items b p (map stored_input r.items)
        assert_items_belong_to_single_seller p
            (map (λ (i : RequestedItem). i.payment_item_id) items)
        ok (update_payment p.id (take_lease now token) s, (r, some token)))

  unfoldable pub claim_approval :
      ℕ → String → RefundRequest → Store → Attempt (Store × (RefundRequest × Option String))
  claim_approval now token initial s =
      with_payment_lock initial.payment_id
        (λ p. do r ← find_request initial.id s; claim_request now token s p r) s

  -- What the second transaction does: the counters of the items, the status of the request and the
  -- lease, together.
  unfoldable pub finish_request :
      String
      → String
      → Option String
      → Store
      → Payment
      → RefundRequest
      → Attempt (Store × RefundRequest)
  finish_request token actor text s p r = do
    assert_pending_refund_request r
    assert_payment_is_refundable p
    _ ← validate_refund_items b p (map stored_input r.items)
    let refund = λ (p : Payment). record p { items = add_refunds b r.items p.items }
    (s', result) ←
        resolve_refund_request r actor RefundRequestStatus.approved text
          (update_payment p.id refund s)
    ok (update_payment p.id drop_lease s', result)

  unfoldable pub finish_approval :
      String → String → Option String → RefundRequest → Store → Attempt (Store × RefundRequest)
  finish_approval token actor text initial s =
      with_payment_lock initial.payment_id
        (λ p. do
          throw_if (not (opt_eq p.refund_approval_token (some token))) lease_changed
          r ← find_request initial.id s
          finish_request token actor text s p r)
        s

  -- The `finally` of `approveRequest`: whatever the outcome, the lease goes if it is still ours.
  unfoldable pub finish_with :
      String → String → Store → Attempt (Store × RefundRequest) → Store × Attempt RefundRequest
  finish_with token payment_id s (ok (s', r)) = (release_lease token payment_id s', ok r)
  finish_with token payment_id s (err e) = (release_lease token payment_id s, err e)

  unfoldable pub approve_paid :
      String
      → String
      → Option String
      → RefundRequest
      → Store × Attempt (Unit {0})
      → Store × Attempt RefundRequest
  unfolding finish_with
  approve_paid token actor text initial (s, err e) =
      (release_lease token initial.payment_id s, err e)
  approve_paid token actor text initial (s, ok _) =
      finish_with token initial.payment_id s (finish_approval token actor text initial s)

  unfoldable pub approve_claimed :
      RefundPayment
      → String
      → Option String
      → RefundRequest
      → Store
      → Attempt (Store × (RefundRequest × Option String))
      → Store × Attempt RefundRequest
  unfolding approve_paid
  approve_claimed pay actor text initial s (err e) = (s, err e)
  approve_claimed pay actor text initial s (ok (s', (r, none))) = (s', ok r)
  approve_claimed pay actor text initial s (ok (s', (r, some token))) =
      approve_paid token actor text initial (pay r s')

  unfoldable pub approve_noted :
      RefundPayment
      → ℕ
      → String
      → RefundRequest
      → String
      → Option String
      → Store
      → Attempt (Unit {0})
      → Store × Attempt RefundRequest
  unfolding approve_claimed
  approve_noted pay now token initial actor text s (err e) = (s, err e)
  approve_noted pay now token initial actor text s (ok _) =
      approve_claimed pay actor text initial s (claim_approval now token initial s)

  -- `approveRequest`, when nothing else runs between its transactions.
  unfoldable pub approve_request :
      RefundPayment
      → ℕ
      → String
      → RefundRequest
      → String
      → Option String
      → Store
      → Store × Attempt RefundRequest
  unfolding approve_noted
  approve_request pay now token initial actor text s =
      approve_noted pay now token initial actor text s (validate_note text)

  unfoldable pub approve_checks :
      Option (List String) → String → Option String → Store → Attempt RefundRequest
  approve_checks owned request_id text s = do
    validate_note text
    r ← find_request request_id s
    assert_pending_refund_request r
    throw_if (not (is_empty r.idempotency_key)) system_request
    throw_if (is_falsy r.requested_to_payment_account_id) no_target_account
    authorize_refund_action owned r.requested_to_payment_account_id
    ok r

  -- `approveRefundRequest`
  unfoldable pub approve_refund_request :
      RefundPayment
      → ℕ
      → String
      → Option (List String)
      → String
      → String
      → Option String
      → Store
      → Store × Attempt RefundRequest
  unfolding approve_checks
  approve_refund_request pay now token owned user request_id text s =
      elim (approve_checks owned request_id text s) [
        | err e ↦ (s, err e)
        | ok r ↦ approve_request pay now token r user text s
      ]
