-- ===== src/Refund/Reservation/Requested.antt =====
-- What the checks of a new refund request establish about the requested quantities.
use mathlib.Core.Path.{subst}
use postral_core.Prelude.{
  String, ◌≡◌, refl, ap, ◌∙◌, true, false, Option, some, List, [], ◌∷◌, ◌++◌, find, filter,
  flat_map, includes, str_eq, str_eq→eq, find_key, ok, >>=-returned, ltb_ℤ, ltb_ℤ→le, throw_if-ok,
  pos, ◌+ℤ◌, ◌≤ℤ◌, arith, int_laws, parts_eq, Bool-cases, inl, inr, if◌then◌else◌,
}
use postral_core.Amount.{Amount, BigJs, IsExact, add_number_values}
use postral_core.Amount.Exact.{add_number_values-sum}
use postral_core.Entity.Status.{is_pending}
use postral_core.Entity.Payment.{Payment, PaymentItem}
use postral_core.Entity.Refund.{RefundRequest, RefundRequestItem}
use postral_core.Refund.Failure.{already_reserved}
use postral_core.Refund.Checks.{
  Count, ItemInput, RequestedItem, check_fields, check_items, validate_item_input, get_payment_item,
  items_of, reservations_of, reserved_from, check_reserved, check_all_reserved,
}
use postral_core.Refund.Store.{has_item_id}
use postral_core.Refund.Reservation.Counts.{count_in, part, share, held}

-- The quantity of the payment item `id` among the requested items.
abbrev pub requested_count : String → List RequestedItem → Amount
requested_count id [] = pos 0
requested_count id (r ∷ rs) =
    if str_eq r.payment_item_id id
    then r.refund_count +ℤ requested_count id rs
    else requested_count id rs

-- No ID twice, nor one of those before; and every quantity is positive.
abbrev pub IsDistinct : List String → List RequestedItem → Type 0
IsDistinct ids [] = Unit
IsDistinct ids (r ∷ rs) =
    (includes ids r.payment_item_id ≡ false)
    × (pos 1 ≤ℤ r.refund_count)
    × IsDistinct (r.payment_item_id ∷ ids) rs

check_fields-ok :
    (ids : List String) (id : Option String) (count : Count) {r : RequestedItem}
    → check_fields ids id count ≡ ok r
    → (includes ids r.payment_item_id ≡ false) × (pos 1 ≤ℤ r.refund_count)
unfolding check_fields
check_fields-ok ids id count h = ground arith

check_items-IsDistinct :
    (ids : List String) (inputs : List ItemInput) {rs : List RequestedItem}
    → check_items ids inputs ≡ ok rs
    → IsDistinct ids rs
unfolding check_items
check_items-IsDistinct ids [] {rs} h = subst (IsDistinct ids) {x = []} {y = rs} (cc) tt
check_items-IsDistinct ids (input ∷ inputs) {rs} h =
    let (r, hr, tail) =
      >>=-returned (check_fields ids input.payment_item_id input.refund_count) _ h in
    let (rs', hrs, done) = >>=-returned (check_items (r.payment_item_id ∷ ids) inputs) _ tail in
    let (fresh, positive) = check_fields-ok ids input.payment_item_id input.refund_count hr in
    subst (IsDistinct ids) {x = r ∷ rs'} {y = rs} (cc)
      (fresh, positive, check_items-IsDistinct (r.payment_item_id ∷ ids) inputs hrs)

-- What the item checks let through has distinct IDs and positive quantities.
pub validate_item_input-IsDistinct :
    (inputs : List ItemInput) {rs : List RequestedItem}
    → validate_item_input inputs ≡ ok rs
    → IsDistinct [] rs
unfolding validate_item_input
validate_item_input-IsDistinct [] h = cc
validate_item_input-IsDistinct (input ∷ inputs) h = check_items-IsDistinct [] (input ∷ inputs) h

requested_count-seen :
    (id : String) (ids : List String) (rs : List RequestedItem)
    → includes ids id ≡ true
    → IsDistinct ids rs
    → requested_count id rs ≡ pos 0
requested_count-seen id ids [] seen d = refl
requested_count-seen id ids (r ∷ rs) seen (fresh, _, d) =
    elim (Bool-cases (str_eq r.payment_item_id id)) [
      | inl same ↦ cc (ap (includes ids) (str_eq→eq r.payment_item_id id same))
      | inr other ↦
          rw other (requested_count-seen id (r.payment_item_id ∷ ids) rs (rw other seen) d)
    ]

count_in-append :
    (id : String) (cs ds : List RefundRequestItem)
    → count_in id (cs ++ ds) ≡ count_in id cs +ℤ count_in id ds
count_in-append id [] ds = omega int_laws
count_in-append id (c ∷ cs) ds = elim (Bool-cases (str_eq c.payment_item_id id)) [
  | inl hit ↦ rw (hit, count_in-append id cs ds) (omega int_laws)
  | inr miss ↦ rw (miss, count_in-append id cs ds)
]

module _ {b : BigJs Amount} (exact : IsExact b) where
  reserved_from-sum :
      (id : String) (total : Amount) (cs : List RefundRequestItem)
      → reserved_from b total (filter (λ c. str_eq c.payment_item_id id) cs)
        ≡ total +ℤ count_in id cs
  unfolding reserved_from
  reserved_from-sum id total [] = omega int_laws
  reserved_from-sum id total (c ∷ cs) = elim (Bool-cases (str_eq c.payment_item_id id)) [
    | inl hit ↦ rw hit (
        reserved_from-sum id (add_number_values b (total ∷ c.refund_count ∷ [])) cs
        ∙ ap (λ n. n +ℤ count_in id cs) (add_number_values-sum exact (total ∷ c.refund_count ∷ []))
        ∙ omega int_laws)
    | inr miss ↦ rw miss (reserved_from-sum id total cs)
  ]

zero_add : (n : Amount) → pos 0 +ℤ n ≡ n
zero_add n = omega int_laws

-- The items of the pending reservations hold what `held` counts.
pending_items : Payment → List RefundRequest → List RefundRequestItem
pending_items p rs =
    flat_map (λ (r : RefundRequest). r.items)
      (filter (λ r. is_pending r.status) (reservations_of p rs))

count_in-pending :
    (p : Payment) (id : String) (rs : List RefundRequest)
    → count_in id (pending_items p rs) ≡ held is_pending p.id id rs
unfolding pending_items share part
count_in-pending p id [] = refl
count_in-pending p id (r ∷ rs) = ground (
  arith,
  count_in-pending p id rs,
  count_in-append id r.items (pending_items p rs),
  zero_add (held is_pending p.id id rs),
)

-- What the requested items leave of one payment item.
module _ {b : BigJs Amount} (exact : IsExact b) (p : Payment) (requests : List RefundRequest) where
  abbrev reservations : List RefundRequest
  reservations = filter (λ r. is_pending r.status) (reservations_of p requests)

  check_reserved-le :
      (r : RequestedItem) (i : PaymentItem)
      → find (has_item_id r.payment_item_id) p.items ≡ some i
      → check_reserved b p reservations r ≡ ok tt
      → i.refund_count +ℤ held is_pending p.id r.payment_item_id requests +ℤ r.refund_count
        ≤ℤ i.quantity
  unfolding check_reserved get_payment_item pending_items
  check_reserved-le r i hi h =
      let key = find_key (λ (i : PaymentItem). i.id) r.payment_item_id p.items hi in
      let reserved =
        reserved_from-sum exact i.id (pos 0) (pending_items p requests)
        ∙ ap (λ n. pos 0 +ℤ n) (count_in-pending p i.id requests)
        ∙ zero_add _
        ∙ ap (λ k. held is_pending p.id k requests) key in
      let amounts =
        i.refund_count
        ∷ reserved_from b (pos 0) (items_of i.id reservations)
        ∷ r.refund_count
        ∷ [] in
      let total =
        add_number_values-sum exact amounts
        ∙ ap (λ n. i.refund_count +ℤ (n +ℤ (r.refund_count +ℤ pos 0))) reserved in
      let within = ltb_ℤ→le i.quantity (add_number_values b amounts) (
        throw_if-ok (ltb_ℤ i.quantity (add_number_values b amounts)) (already_reserved i.name)
          (rw hi at h)) in
      omega (int_laws, parts_eq total, within)

  -- All checks together bound each item of the payment.
  pub check_all_reserved-le :
      (ids : List String) (rs : List RequestedItem) (id : String) (i : PaymentItem)
      → find (has_item_id id) p.items ≡ some i
      → IsDistinct ids rs
      → i.refund_count +ℤ held is_pending p.id id requests ≤ℤ i.quantity
      → check_all_reserved b p reservations rs ≡ ok tt
      → i.refund_count +ℤ held is_pending p.id id requests +ℤ requested_count id rs ≤ℤ i.quantity
  unfolding check_all_reserved
  check_all_reserved-le ids [] id i hi d old h = omega int_laws
  check_all_reserved-le ids (r ∷ rs) id i hi (_, _, d) old h =
      let (_, first, rest) = >>=-returned (check_reserved b p reservations r) _ h in
      elim (Bool-cases (str_eq r.payment_item_id id)) [
        | inl same ↦
            let own = str_eq→eq r.payment_item_id id same in
            let once = requested_count-seen id (r.payment_item_id ∷ ids) rs (rw same) d in
            let bound =
              check_reserved-le r i (ap (λ k. find (has_item_id k) p.items) own ∙ hi) first in
            let share = ap (λ k. held is_pending p.id k requests) own in
            rw same (omega (int_laws, parts_eq once, parts_eq share, bound))
        | inr other ↦
            rw other (check_all_reserved-le (r.payment_item_id ∷ ids) rs id i hi d old rest)
      ]
