-- ===== src/Refund/Reservation/Steps.antt =====
-- The transactions of the refund service in any order, from requests of several users, of other
-- applications and of approvals that run at the same time: each transaction is one step, since it
-- holds the lock of its payment. The creation of a payment and any change of payments that leaves
-- their items are steps of other services.
use postral_core.Prelude.{
  ℕ, String, ◌≡◌, refl, Bool, Option, some, List, [], find, update_where, ok, pos, ◌≤ℤ◌, int_laws,
  parts_eq,
}
use postral_core.Amount.{Amount, BigJs, IsExact}
use postral_core.Entity.Status.{is_pending, is_approved}
use postral_core.Entity.Payment.{Payment, PaymentItem}
use postral_core.Entity.Refund.{RefundRequest}
use postral_core.Refund.Checks.{CreateRefundRequest}
use postral_core.Refund.Store.{Store, has_payment_id, has_item_id, has_request_id}
use postral_core.Refund.Service.{create_refund_request, reject_refund_request}
use postral_core.Refund.Approval.{claim_approval, finish_approval, release_lease, drop_lease}
use postral_core.Refund.System.{start_refund}
use postral_core.Refund.Reservation.Counts.{IsFresh}
use postral_core.Refund.Reservation.Invariant.{IsReserved}
use postral_core.Refund.Reservation.Create.{create_refund_request-IsReserved}
use postral_core.Refund.Reservation.Resume.{start_refund-IsReserved}
use postral_core.Refund.Reservation.Finish.{finish_approval-IsReserved}
use postral_core.Refund.Reservation.Nonneg.{held_nonneg}
use postral_core.Refund.Reservation.Reject.{
  payments-IsReserved, claim_approval-IsReserved, reject_refund_request-IsReserved,
}

-- A transaction that committed. The caller of the second transaction of an approval has read the
-- request in the first one.
pub data Step (b : BigJs Amount) (s : Store) : Store → Type 0 where
  created :
      (id user : String) (dto : CreateRefundRequest) {s' : Store} {r : RefundRequest}
      → IsFresh id s.requests
      → create_refund_request b id user dto s ≡ ok (s', r)
      → Step b s s'
  started :
      (id : String) (sent : Option String) (dto : CreateRefundRequest) {s' : Store}
      {r : RefundRequest}
      → IsFresh id s.requests
      → start_refund b id sent dto s ≡ ok (s', r)
      → Step b s s'
  claimed :
      (now : ℕ) (token : String) (initial : RefundRequest) {s' : Store}
      {claim : RefundRequest × Option String}
      → claim_approval b now token initial s ≡ ok (s', claim)
      → Step b s s'
  finished :
      (token actor : String) (text : Option String) (initial : RefundRequest) {s' : Store}
      {r : RefundRequest}
      → ((q : RefundRequest)
          → find (has_request_id initial.id) s.requests ≡ some q
          → q.payment_id ≡ initial.payment_id)
      → finish_approval b token actor text initial s ≡ ok (s', r)
      → Step b s s'
  released : (token payment_id : String) → Step b s (release_lease token payment_id s)
  rejected :
      (now : ℕ) (owned : Option (List String)) (user id : String) (text : Option String)
      {s' : Store} {r : RefundRequest}
      → reject_refund_request now owned user id text s ≡ ok (s', r)
      → Step b s s'
  changed :
      (test : Payment → Bool) (f : Payment → Payment)
      → ((p : Payment) → (f p).id ≡ p.id)
      → ((p : Payment) → (f p).items ≡ p.items)
      → Step b s (record s { payments = update_where test f s.payments })

-- Payments as they are created: nothing of an item is refunded.
abbrev pub IsUnrefunded : List Payment → Type 0
IsUnrefunded ps =
    (pid iid : String) (p : Payment) (i : PaymentItem)
    → find (has_payment_id pid) ps ≡ some p
    → find (has_item_id iid) p.items ≡ some i
    → (i.refund_count ≡ pos 0) × (pos 0 ≤ℤ i.quantity)

pub data Reach (b : BigJs Amount) : Store → Type 0 where
  start : (ps : List Payment) → IsUnrefunded ps → Reach b (record { payments = ps; requests = [] })
  later : {s s' : Store} → Reach b s → Step b s s' → Reach b s'

module _ {b : BigJs Amount} (exact : IsExact b) where
  Step-IsReserved : {s s' : Store} → IsReserved s → Step b s s' → IsReserved s'
  unfolding release_lease
  Step-IsReserved inv (created id user dto fresh h) =
      create_refund_request-IsReserved exact id user dto _ inv fresh h
  Step-IsReserved inv (started id sent dto fresh h) =
      start_refund-IsReserved exact id sent dto _ inv fresh h
  Step-IsReserved inv (claimed now token initial h) =
      claim_approval-IsReserved b now token initial _ inv h
  Step-IsReserved inv (finished token actor text initial owner h) =
      finish_approval-IsReserved exact token actor text initial _ inv owner h
  Step-IsReserved inv (released token payment_id) =
      payments-IsReserved _ _ drop_lease (λ _. refl) (λ _. refl) inv
  Step-IsReserved inv (rejected now owned user id text h) =
      reject_refund_request-IsReserved now owned user id text _ inv h
  Step-IsReserved inv (changed test f same_id same_items) =
      payments-IsReserved _ test f same_id same_items inv

  -- If the arithmetic is exact, then in every state that the transactions reach, in whatever
  -- order they come, no two requests have one ID, every requested quantity is positive, the
  -- refund counter of an item is the sum of what approved requests hold of it, and the counter
  -- together with what pending requests hold does not exceed the purchased quantity. It starts
  -- from payments with nothing refunded and no requests; a new request gets a new ID, and the
  -- request that an approval finishes is on the payment that it was read with.
  pub Reach-IsReserved : {s : Store} → Reach b s → IsReserved s
  Reach-IsReserved (start ps none_refunded) = record {
    unique = tt;
    positive = tt;
    fits = λ pid iid p i hp hi.
        let (counter, quantity) = none_refunded pid iid p i hp hi in
        record { counted = counter; within = omega (int_laws, parts_eq counter, quantity) };
  }
  Reach-IsReserved (later r step) = Step-IsReserved (Reach-IsReserved r) step

  -- If the arithmetic is exact, then in every state that the transactions reach, the refunded
  -- quantity of an item (the rows are read by their IDs) is between zero and the purchased
  -- quantity.
  pub refund_count_le :
      {s : Store}
      → Reach b s
      → (pid iid : String) (p : Payment) (i : PaymentItem)
      → find (has_payment_id pid) s.payments ≡ some p
      → find (has_item_id iid) p.items ≡ some i
      → (pos 0 ≤ℤ i.refund_count) × (i.refund_count ≤ℤ i.quantity)
  refund_count_le {s} r pid iid p i hp hi =
      let inv = Reach-IsReserved r in
      let fits = inv.fits pid iid p i hp hi in
      let pending = held_nonneg is_pending pid iid s.requests inv.positive in
      let approved = held_nonneg is_approved pid iid s.requests inv.positive in
      (omega (int_laws, parts_eq fits.counted, approved), omega (int_laws, fits.within, pending))
