-- ===== src/Refund/Reservation/Finish.antt =====
-- An approval moves the quantities of its request from the pending to the counted ones.
use mathlib.Core.Path.{subst}
use postral_core.Prelude.{
  All-update_where, String, ◌≡◌, refl, sym, ap, ap₂, ◌∙◌, true, Option, some, List, find,
  update_where, str_eq, str_eq→eq, str_eq_comm, find_key, find-update_where, ok, >>=-returned,
  throw_if, not, opt_eq, pos, ◌+ℤ◌, arith, int_laws, parts_eq, Bool-cases, inl, inr, if◌then◌else◌,
}
use postral_core.Amount.{Amount, BigJs, IsExact}
use postral_core.Entity.Status.{RefundRequestStatus, is_pending, is_approved}
use postral_core.Entity.Payment.{Payment, PaymentItem}
use postral_core.Entity.Refund.{RefundRequest}
use postral_core.Refund.Checks.{assert_pending_refund_request}
use postral_core.Refund.Service.{resolve_refund_request}
use postral_core.Refund.Approval.{finish_request, finish_approval, drop_lease}
use postral_core.Refund.Failure.{lease_changed}
use postral_core.Refund.Store.{
  with_payment_lock-ok, find_request, find_request-ok, Store, update_payment, update_request,
  has_payment_id, has_item_id, has_request_id, add_refunds,
}
use postral_core.Refund.Reservation.Counts.{
  part-own, part-other, held, part, count_in, HasUniqueIds-update,
}
use postral_core.Refund.Reservation.Invariant.{HasPositiveCounts, Fits, IsReserved}
use postral_core.Refund.Reservation.Items.{add_refunds-count}
use postral_core.Refund.Reservation.Approved.{resolved, held-approved}

-- The items of a payment with the refunds of a request counted.
abbrev pub refunded : BigJs Amount → RefundRequest → Payment → Payment
refunded b r p = record p { items = add_refunds b r.items p.items }

abbrev pub finished :
    BigJs Amount → Payment → RefundRequest → String → Option String → Store → Store
finished b p r actor text s = update_payment p.id drop_lease (
    update_request r.id (resolved RefundRequestStatus.approved actor text)
      (update_payment p.id (refunded b r) s))

module _ (b : BigJs Amount) where
  -- An approval that finishes resolves a pending request, counts its items and drops the lease.
  pub finish_request-effect :
      (token actor : String) (text : Option String) (s : Store) (p : Payment) (r : RefundRequest)
      {s' : Store} {result : RefundRequest}
      → finish_request b token actor text s p r ≡ ok (s', result)
      → (is_pending r.status ≡ true) × (s' ≡ finished b p r actor text s)
  unfolding finish_request assert_pending_refund_request resolve_refund_request
  finish_request-effect token actor text s p r h = ground arith

module _ {b : BigJs Amount} (exact : IsExact b) where
  Fits-moved :
      {requests requests' : List RefundRequest} {pid iid : String} {i j : PaymentItem}
      {n k : Amount}
      → Fits requests pid iid i
      → j.refund_count ≡ i.refund_count +ℤ n
      → j.quantity ≡ i.quantity
      → k ≡ n
      → (held is_approved pid iid requests' ≡ held is_approved pid iid requests +ℤ k)
        × (held is_pending pid iid requests' +ℤ k ≡ held is_pending pid iid requests)
      → Fits requests' pid iid j
  Fits-moved {requests} {pid = pid} {iid = iid} {n = n} old counted kept same moved = record {
    counted =
        counted
        ∙ ap (λ m. m +ℤ n) old.counted
        ∙ ap (λ m. held is_approved pid iid requests +ℤ m) (sym same)
        ∙ sym moved.0;
    within =
        omega
          (int_laws, parts_eq counted, parts_eq kept, parts_eq same, parts_eq moved.1, old.within);
  }

  -- One item of a payment after the approval of the request `r` on the payment `p`.
  Fits-approved :
      (s : Store) (p : Payment) (r : RefundRequest) (actor : String) (text : Option String)
      → IsReserved s
      → find (has_request_id r.id) s.requests ≡ some r
      → is_pending r.status ≡ true
      → r.payment_id ≡ p.id
      → (pid iid : String) (x : Payment) (j : PaymentItem)
      → find (has_payment_id pid) s.payments ≡ some x
      → find
          (has_item_id iid)
          (if has_payment_id p.id x then add_refunds b r.items x.items else x.items)
        ≡ some j
      → Fits
          (update_where
            (has_request_id r.id)
            (resolved RefundRequestStatus.approved actor text)
            s.requests)
          pid
          iid
          j
  Fits-approved s p r actor text inv found pending owner pid iid x j hx hj =
      let moved = held-approved pid iid s.requests r actor text inv.unique found pending in
      elim (Bool-cases (has_payment_id p.id x)) [
        | inl same ↦
            let (i, hi, counted, kept) =
              add_refunds-count exact iid r.items x.items (rw same at hj) in
            let old = inv.fits pid iid x i hx hi in
            let all : part pid iid r ≡ count_in iid r.items = part-own pid iid r (
              owner
              ∙ sym (str_eq→eq x.id p.id same)
              ∙ find_key (λ (p : Payment). p.id) pid s.payments hx) in
            Fits-moved old counted kept all moved
        | inr other ↦
            let old = inv.fits pid iid x j hx (rw other at hj) in
            let nothing : part pid iid r ≡ pos 0 = part-other pid iid r (
              ap₂ str_eq owner (sym (find_key (λ (p : Payment). p.id) pid s.payments hx))
              ∙ str_eq_comm p.id x.id
              ∙ other) in
            Fits-moved old (omega int_laws) refl nothing moved
      ]

  items_after :
      (p : Payment) (r : RefundRequest) (x x1 y : Payment)
      → x1 ≡ (if has_payment_id p.id x then refunded b r x else x)
      → y ≡ (if has_payment_id p.id x1 then drop_lease x1 else x1)
      → y.items ≡ (if has_payment_id p.id x then add_refunds b r.items x.items else x.items)
  items_after p r x x1 y e1 ey = ground arith

  finished-IsReserved :
      (s : Store) (p : Payment) (r : RefundRequest) (actor : String) (text : Option String)
      → IsReserved s
      → find (has_request_id r.id) s.requests ≡ some r
      → is_pending r.status ≡ true
      → r.payment_id ≡ p.id
      → IsReserved (finished b p r actor text s)
  finished-IsReserved s p r actor text inv found pending owner = record {
    unique =
        HasUniqueIds-update r.id (resolved RefundRequestStatus.approved actor text) (λ _. refl)
          s.requests inv.unique;
    positive =
        All-update_where HasPositiveCounts (has_request_id r.id)
          (resolved RefundRequestStatus.approved actor text) (λ _ h. h) s.requests inv.positive;
    fits = λ pid iid y j hy hj.
        let (x1, hx1, ey) =
          find-update_where (λ (p : Payment). p.id) (has_payment_id p.id) drop_lease (λ _. refl) pid
            (update_where (has_payment_id p.id) (refunded b r) s.payments) hy in
        let (x, hx, e1) =
          find-update_where (λ (p : Payment). p.id) (has_payment_id p.id) (refunded b r) (λ _. refl)
            pid s.payments hx1 in
        Fits-approved s p r actor text inv found pending owner pid iid x j hx
          (ap (find (has_item_id iid)) (sym (items_after p r x x1 y e1 ey)) ∙ hj);
  }

  -- Finishing an approval keeps the tables consistent, if the caller has the payment of the request
  -- right (a request never moves to another payment).
  pub finish_approval-IsReserved :
      (token actor : String) (text : Option String) (initial : RefundRequest) (s : Store)
      {s' : Store} {result : RefundRequest}
      → IsReserved s
      → ((r : RefundRequest)
          → find (has_request_id initial.id) s.requests ≡ some r
          → r.payment_id ≡ initial.payment_id)
      → finish_approval b token actor text initial s ≡ ok (s', result)
      → IsReserved s'
  unfolding finish_approval
  finish_approval-IsReserved token actor text initial s inv owner h =
      let (p, hp, action) = with_payment_lock-ok initial.payment_id _ s h in
      let (_, _, leased) =
        >>=-returned (throw_if (not (opt_eq p.refund_approval_token (some token))) lease_changed) _
          action in
      let (r, hr, finished) = >>=-returned (find_request initial.id s) _ leased in
      let found = find_request-ok initial.id s hr in
      let (pending, effect) = finish_request-effect b token actor text s p r finished in
      let key = find_key (λ (r : RefundRequest). r.id) initial.id s.requests found in
      subst IsReserved (sym effect) (
        finished-IsReserved s p r actor text inv
          (ap (λ k. find (has_request_id k) s.requests) key ∙ found) pending
          (owner r found ∙ sym (find_key (λ (p : Payment). p.id) initial.payment_id s.payments hp)))
