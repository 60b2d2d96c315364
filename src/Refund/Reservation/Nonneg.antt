-- ===== src/Refund/Reservation/Nonneg.antt =====
-- What requests hold is not negative.
use mathlib.Core.Option.{some-injective}
use mathlib.Core.Path.{subst}
use postral_core.Prelude.{
  String, ◌≡◌, Bool, some, List, [], ◌∷◌, find, str_eq, All, pos, ◌≤ℤ◌, arith, int_laws, Bool-cases,
  inl, inr,
}
use postral_core.Entity.Status.{RefundRequestStatus}
use postral_core.Entity.Refund.{RefundRequest, RefundRequestItem}
use postral_core.Refund.Store.{has_request_id}
use postral_core.Refund.Reservation.Counts.{count_in, part, share, held}
use postral_core.Refund.Reservation.Invariant.{HasPositiveCounts}

count_in_nonneg :
    (id : String) (cs : List RefundRequestItem)
    → All (λ (c : RefundRequestItem). pos 1 ≤ℤ c.refund_count) cs
    → pos 0 ≤ℤ count_in id cs
count_in_nonneg id [] h = omega arith
count_in_nonneg id (c ∷ cs) (h, hs) = elim (Bool-cases (str_eq c.payment_item_id id)) [
  | inl hit ↦ rw hit (omega (int_laws, count_in_nonneg id cs hs))
  | inr miss ↦ rw miss (count_in_nonneg id cs hs)
]

pub share_nonneg :
    (test : RefundRequestStatus → Bool) (p id : String) (r : RefundRequest)
    → HasPositiveCounts r
    → pos 0 ≤ℤ share test p id r
unfolding share part
share_nonneg test p id r h = ground (arith, count_in_nonneg id r.items h)

-- What requests hold is never negative.
pub held_nonneg :
    (test : RefundRequestStatus → Bool) (p id : String) (rs : List RefundRequest)
    → All HasPositiveCounts rs
    → pos 0 ≤ℤ held test p id rs
held_nonneg test p id [] h = omega arith
held_nonneg test p id (r ∷ rs) (h, hs) =
    omega (int_laws, share_nonneg test p id r h, held_nonneg test p id rs hs)

pub find-All :
    (id : String) (rs : List RefundRequest) {r : RefundRequest}
    → All HasPositiveCounts rs
    → find (has_request_id id) rs ≡ some r
    → HasPositiveCounts r
find-All id [] h e = cc
find-All id (q ∷ rs) (h, hs) e = elim (Bool-cases (has_request_id id q)) [
  | inl hit ↦ subst HasPositiveCounts (some-injective _ _ (rw hit at e)) h
  | inr miss ↦ find-All id rs hs (rw miss at e)
]
