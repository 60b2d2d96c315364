-- ===== src/Refund/Reservation/Reject.antt =====
-- A rejection gives the reserved quantities back, and a lease changes none.
use mathlib.Core.Path.{subst}
use postral_core.Prelude.{
  ℕ, String, ◌≡◌, refl, sym, ap, ◌∙◌, Bool, true, ◌⊎◌, is_falsy, Option, some, List, find,
  update_where, find_key, find-update_where, ok, >>=-returned, throw_if, All-update_where, pos,
  ◌+ℤ◌, arith, int_laws, eq_of_parts, parts_eq, inl, inr, if◌then◌else◌,
}
use postral_core.Amount.{Amount, BigJs}
use postral_core.Entity.Status.{RefundRequestStatus, is_pending, is_approved}
use postral_core.Entity.Payment.{Payment}
use postral_core.Entity.Refund.{RefundRequest}
use postral_core.Refund.Checks.{
  assert_pending_refund_request, assert_no_approval_in_progress, validate_note,
}
use postral_core.Refund.Failure.{no_target_account}
use postral_core.Refund.Store.{
  Store, update_payment, update_request, has_payment_id, has_item_id, has_request_id,
  with_payment_lock-ok, find_request, find_request-ok,
}
use postral_core.Refund.Service.{
  resolve_refund_request, reject_request, reject_refund_request, authorize_refund_action,
}
use postral_core.Refund.Approval.{
  claim_request, claim_approval, release_lease, take_lease, drop_lease,
}
use postral_core.Refund.Reservation.Counts.{
  HasUniqueIds, HasUniqueIds-update, part, share, held, held-update,
}
use postral_core.Refund.Reservation.Approved.{resolved, not_approved}
use postral_core.Refund.Reservation.Invariant.{HasPositiveCounts, IsReserved}
use postral_core.Refund.Reservation.Nonneg.{share_nonneg, find-All}

-- A change of payments that leaves their items.
pub payments-IsReserved :
    (s : Store) (test : Payment → Bool) (f : Payment → Payment)
    → ((p : Payment) → (f p).id ≡ p.id)
    → ((p : Payment) → (f p).items ≡ p.items)
    → IsReserved s
    → IsReserved (record s { payments = update_where test f s.payments })
payments-IsReserved s test f same_id same_items inv = record {
  unique = inv.unique;
  positive = inv.positive;
  fits = λ pid iid y i hy hi.
      let (x, hx, e) = find-update_where (λ (p : Payment). p.id) test f same_id pid s.payments hy in
      inv.fits pid iid x i hx (ap (find (has_item_id iid)) (sym (kept x y e)) ∙ hi);
}
  where
    kept : (x y : Payment) → y ≡ (if test x then f x else x) → y.items ≡ x.items
    kept x y e = ground (arith, same_items x)

module _ (b : BigJs Amount) where
  claim_request-effect :
      (now : ℕ) (token : String) (s : Store) (p : Payment) (r : RefundRequest) {s' : Store}
      {claim : RefundRequest × Option String}
      → claim_request b now token s p r ≡ ok (s', claim)
      → (s' ≡ s) ⊎ (s' ≡ update_payment p.id (take_lease now token) s)
  unfolding claim_request
  claim_request-effect now token s p r h = ground arith

  -- Taking a lease keeps the invariant.
  pub claim_approval-IsReserved :
      (now : ℕ) (token : String) (initial : RefundRequest) (s : Store) {s' : Store}
      {claim : RefundRequest × Option String}
      → IsReserved s
      → claim_approval b now token initial s ≡ ok (s', claim)
      → IsReserved s'
  unfolding claim_approval
  claim_approval-IsReserved now token initial s inv h =
      let (p, hp, action) = with_payment_lock-ok initial.payment_id _ s h in
      let (r, hr, claimed) = >>=-returned (find_request initial.id s) _ action in
      elim (claim_request-effect now token s p r claimed) [
        | inl same ↦ subst IsReserved (sym same) inv
        | inr leased ↦ subst IsReserved (sym leased) (
            payments-IsReserved s (has_payment_id p.id) (take_lease now token) (λ _. refl)
              (λ _. refl) inv)
      ]

pub release_lease-IsReserved :
    (token payment_id : String) (s : Store)
    → IsReserved s
    → IsReserved (release_lease token payment_id s)
unfolding release_lease
release_lease-IsReserved token payment_id s inv =
    payments-IsReserved s _ drop_lease (λ _. refl) (λ _. refl) inv

module _ (p item : String) (rs : List RefundRequest) (r : RefundRequest) (actor : String)
    (text : Option String) where
  shares_rejected :
      is_pending r.status ≡ true
      → let r' = resolved RefundRequestStatus.rejected actor text r in
        (share is_approved p item r ≡ pos 0)
        × (share is_approved p item r' ≡ pos 0)
        × (share is_pending p item r ≡ part p item r)
        × (share is_pending p item r' ≡ pos 0)
  unfolding share part
  shares_rejected pending = (rw (not_approved r.status pending), refl, rw pending, refl)

  held-rejected :
      HasUniqueIds rs
      → find (has_request_id r.id) rs ≡ some r
      → is_pending r.status ≡ true
      → let rs' =
          update_where
            (has_request_id r.id)
            (resolved RefundRequestStatus.rejected actor text)
            rs in
        (held is_approved p item rs' ≡ held is_approved p item rs)
        × (held is_pending p item rs' +ℤ share is_pending p item r ≡ held is_pending p item rs)
  held-rejected unique found pending =
      let f = resolved RefundRequestStatus.rejected actor text in
      let approvals = held-update r.id f is_approved p item rs r unique found in
      let pendings = held-update r.id f is_pending p item rs r unique found in
      let (a, a', _, none_pending) = shares_rejected pending in
      (
        eq_of_parts _ _ (omega (int_laws, parts_eq approvals, parts_eq a, parts_eq a')),
        eq_of_parts _ _ (omega (int_laws, parts_eq pendings, parts_eq none_pending)),
      )

rejected-IsReserved :
    (s : Store) (r : RefundRequest) (actor : String) (text : Option String)
    → IsReserved s
    → find (has_request_id r.id) s.requests ≡ some r
    → is_pending r.status ≡ true
    → IsReserved (update_request r.id (resolved RefundRequestStatus.rejected actor text) s)
rejected-IsReserved s r actor text inv found pending =
    let f = resolved RefundRequestStatus.rejected actor text in
    record {
      unique = HasUniqueIds-update r.id f (λ _. refl) s.requests inv.unique;
      positive =
          All-update_where HasPositiveCounts (has_request_id r.id) f (λ _ h. h) s.requests
            inv.positive;
      fits = λ pid iid x i hx hi.
          let old = inv.fits pid iid x i hx hi in
          let (approvals, pendings) =
            held-rejected pid iid s.requests r actor text inv.unique found pending in
          let part =
            share_nonneg is_pending pid iid r (find-All r.id s.requests inv.positive found) in
          record {
            counted = old.counted ∙ sym approvals;
            within = omega (int_laws, parts_eq pendings, part, old.within);
          };
    }

reject_request-effect :
    (now : ℕ) (user id : String) (text : Option String) (s : Store) (p : Payment) {s' : Store}
    {result : RefundRequest}
    → reject_request now user id text s p ≡ ok (s', result)
    → (r : RefundRequest) × (find_request id s ≡ ok r)
      × (is_pending r.status ≡ true)
      × (s' ≡ update_request r.id (resolved RefundRequestStatus.rejected user text) s)
unfolding reject_request assert_pending_refund_request resolve_refund_request
reject_request-effect now user id text s p h =
    let (_, _, free) = >>=-returned (assert_no_approval_in_progress now p) _ h in
    let (r, hr, tail) = >>=-returned (find_request id s) _ free in
    (r, hr, ground arith, ground arith)

-- A rejection keeps the invariant.
pub reject_refund_request-IsReserved :
    (now : ℕ) (owned : Option (List String)) (user id : String) (text : Option String) (s : Store)
    {s' : Store} {result : RefundRequest}
    → IsReserved s
    → reject_refund_request now owned user id text s ≡ ok (s', result)
    → IsReserved s'
unfolding reject_refund_request
reject_refund_request-IsReserved now owned user id text s inv h =
    let (_, _, noted) = >>=-returned (validate_note text) _ h in
    let (initial, _, read) = >>=-returned (find_request id s) _ noted in
    let (_, _, targeted) =
      >>=-returned (throw_if (is_falsy initial.requested_to_payment_account_id) no_target_account) _
        read in
    let (_, _, locked) =
      >>=-returned (authorize_refund_action owned initial.requested_to_payment_account_id) _
        targeted in
    let (p, hp, action) = with_payment_lock-ok initial.payment_id _ s locked in
    let (r, hr, pending, effect) = reject_request-effect now user id text s p action in
    let found = find_request-ok id s hr in
    let key = find_key (λ (r : RefundRequest). r.id) id s.requests found in
    subst IsReserved (sym effect) (
      rejected-IsReserved s r user text inv
        (ap (λ k. find (has_request_id k) s.requests) key ∙ found) pending)
