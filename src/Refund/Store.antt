-- ===== src/Refund/Store.antt =====
-- The tables that the refund service reads and writes, and its transactions under the lock of a
-- payment's row. A transaction that throws leaves the tables as they were.
use postral_core.Prelude.{
  String, Bool, true, some, List, [], ◌∷◌, ◌++◌, ok, ◌>>=◌, ◌>>◌, throw_if, or_throw, or_throw-ok,
  >>=-returned, ◌≡◌, find, update_where, str_eq, is_blank, if◌then◌else◌, ltb_ℤ,
}
use postral_core.Amount.{Amount, BigJs, add_number_values}
use postral_core.Entity.Payment.{Payment, PaymentItem}
use postral_core.Entity.Refund.{RefundRequest, RefundRequestItem}
use postral_core.Refund.Failure.{Attempt, payment_id_required, payment_not_found, request_not_found}

pub record Store : Type 0 where
  pub payments : List Payment
  pub requests : List RefundRequest

abbrev pub has_payment_id : String → Payment → Bool
has_payment_id id p = str_eq p.id id

abbrev pub has_request_id : String → RefundRequest → Bool
has_request_id id r = str_eq r.id id

abbrev pub has_item_id : String → PaymentItem → Bool
has_item_id id i = str_eq i.id id

abbrev pub update_payment : String → (Payment → Payment) → Store → Store
update_payment id f s = record s { payments = update_where (has_payment_id id) f s.payments }

abbrev pub update_request : String → (RefundRequest → RefundRequest) → Store → Store
update_request id f s = record s { requests = update_where (has_request_id id) f s.requests }

abbrev pub insert_request : RefundRequest → Store → Store
insert_request r s = record s { requests = s.requests ++ (r ∷ []) }

abbrev pub find_request : String → Store → Attempt RefundRequest
find_request id s = or_throw (find (has_request_id id) s.requests) request_not_found

-- `withPaymentLock`
unfoldable pub with_payment_lock :
    {A : Type 0} → String → (Payment → Attempt (Store × A)) → Store → Attempt (Store × A)
with_payment_lock id action s = do
  throw_if (is_blank id) payment_id_required
  p ← or_throw (find (has_payment_id id) s.payments) payment_not_found
  action p

-- What a transaction that committed has read.
pub with_payment_lock-ok :
    {A : Type 0} (id : String) (action : Payment → Attempt (Store × A)) (s : Store) {x : Store × A}
    → with_payment_lock id action s ≡ ok x
    → (p : Payment) × (find (has_payment_id id) s.payments ≡ some p) × (action p ≡ ok x)
unfolding with_payment_lock
with_payment_lock-ok id action s h =
    let (_, _, opened) = >>=-returned (throw_if (is_blank id) payment_id_required) _ h in
    let (p, read, done) =
      >>=-returned (or_throw (find (has_payment_id id) s.payments) payment_not_found) action
        opened in
    (p, or_throw-ok _ payment_not_found read, done)

pub find_request-ok :
    (id : String) (s : Store) {r : RefundRequest}
    → find_request id s ≡ ok r
    → find (has_request_id id) s.requests ≡ some r
find_request-ok id s h = or_throw-ok _ request_not_found h

module _ (b : BigJs Amount) where
  -- One more refund on an item; a refund of the whole quantity marks it.
  unfoldable pub add_refund : Amount → PaymentItem → PaymentItem
  add_refund count i =
      let refund_count = add_number_values b (i.refund_count ∷ count ∷ []) in
      record i {
        refund_count = refund_count;
        refunded = if ltb_ℤ refund_count i.quantity then i.refunded else true;
      }

  -- `updateOriginalItemsRefundState`: the items of the request one after the other, on the items
  -- that the transaction has loaded.
  unfoldable pub add_refunds : List RefundRequestItem → List PaymentItem → List PaymentItem
  add_refunds [] items = items
  add_refunds (c ∷ cs) items =
      add_refunds cs
        (update_where (has_item_id c.payment_item_id) (add_refund c.refund_count) items)
