-- ===== src/Refund/Reservation/Invariant.antt =====
-- The invariant of the tables that keeps refunds within what was purchased.
use postral_core.Prelude.{All, pos, String, ◌≡◌, List, some, find, ◌+ℤ◌, ◌≤ℤ◌}
use postral_core.Entity.Status.{is_pending, is_approved}
use postral_core.Entity.Payment.{Payment, PaymentItem}
use postral_core.Entity.Refund.{RefundRequest, RefundRequestItem}
use postral_core.Refund.Store.{Store, has_payment_id, has_item_id}
use postral_core.Refund.Reservation.Counts.{held, HasUniqueIds}

-- The counter of an item is what approved requests hold of it, and what pending requests hold fits
-- into the rest of the purchased quantity.
pub record Fits (requests : List RefundRequest) (payment_id item_id : String) (i : PaymentItem)
    : Type 0 where
  pub counted : i.refund_count ≡ held is_approved payment_id item_id requests
  pub within : i.refund_count +ℤ held is_pending payment_id item_id requests ≤ℤ i.quantity

-- Every requested quantity is positive.
abbrev pub HasPositiveCounts : RefundRequest → Type 0
HasPositiveCounts r = All (λ (c : RefundRequestItem). pos 1 ≤ℤ c.refund_count) r.items

-- Rows are read by their primary keys.
pub record IsReserved (s : Store) : Type 0 where
  pub unique : HasUniqueIds s.requests
  pub positive : All HasPositiveCounts s.requests
  pub fits :
      (payment_id item_id : String) (p : Payment) (i : PaymentItem)
      → find (has_payment_id payment_id) s.payments ≡ some p
      → find (has_item_id item_id) p.items ≡ some i
      → Fits s.requests payment_id item_id i
