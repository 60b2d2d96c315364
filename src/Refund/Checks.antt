-- ===== src/Refund/Checks.antt =====
-- The checks of `RefundService`: its inputs, the payment's state and the quantities.
use postral_core.Prelude.{
  ℕ, String, Bool, false, not, ◌&&◌, ◌||◌, Option, none, some, List, [], ◌∷◌, map, ok, err, ◌>>=◌,
  ◌>>◌, throw_if, or_throw, map_result, pos, ltb_ℤ, leb_ℤ, ltb, find, filter, any, all, flat_map,
  includes, str_eq, is_blank, utf16_length, Field, undefined, value, field_eq, is_empty,
}
use postral_core.Amount.{Amount, BigJs, add_number_values}
use postral_core.Entity.Status.{is_purchase, is_completed, is_pending, is_approved}
use postral_core.Entity.Payment.{Payment, PaymentItem}
use postral_core.Entity.Refund.{RefundRequest, RefundRequestItem}
use postral_core.Refund.Failure.{
  Attempt, external_platform, not_purchase, not_completed, not_pending, no_items, invalid_items,
  several_sellers, no_reason, long_note, item_not_found, too_many, already_reserved,
  approval_in_progress,
}

-- A `refundCount` as it arrives: a number of four decimals, a finer one, or none at all (another
-- type, NaN or infinite).
pub data Count : Type 0 where
  four : Amount → Count
  finer not_finite : Count

-- `none` is an item that is missing, or whose ID is no string.
pub record ItemInput : Type 0 where
  pub payment_item_id : Option String
  pub refund_count : Count

-- An item that passed `validateItemInput`.
pub record RequestedItem : Type 0 where
  pub payment_item_id : String
  pub refund_count : Amount

pub record CreateRefundRequest : Type 0 where
  pub payment_id : String
  pub items : List ItemInput
  pub reason_keys : List String
  pub request_note : Option String

unfoldable pub assert_payment_is_refundable : Payment → Attempt (Unit {0})
assert_payment_is_refundable p = do
  throw_if (not (is_empty p.external_platform_id)) external_platform
  throw_if (not (is_purchase p.type)) not_purchase
  throw_if (not (is_completed p.payment_status)) not_completed

unfoldable pub assert_pending_refund_request : RefundRequest → Attempt (Unit {0})
assert_pending_refund_request r = throw_if (not (is_pending r.status)) not_pending

-- An approval lease that has not expired yet.
abbrev pub has_lease : ℕ → Option String → Option ℕ → Bool
has_lease now token (some expires) = not (is_empty token) && ltb now expires
has_lease now token none = false

unfoldable pub assert_no_approval_in_progress : ℕ → Payment → Attempt (Unit {0})
assert_no_approval_in_progress now p =
    throw_if (has_lease now p.refund_approval_token p.refund_approval_expires_at)
      approval_in_progress

-- `getPaymentItemForRefundRequest`
unfoldable pub get_payment_item : Payment → String → Attempt PaymentItem
get_payment_item p id = or_throw (find (λ i. str_eq i.id id) p.items) (item_not_found id)

-- The test on one item, given the IDs before it.
unfoldable pub check_fields : List String → Option String → Count → Attempt RequestedItem
check_fields ids (some id) (four n) = do
  throw_if (is_blank id || leb_ℤ n (pos 0) || includes ids id) invalid_items
  ok (record { payment_item_id = id; refund_count = n })
check_fields ids _ _ = err invalid_items

-- the loop of `validateItemInput`
unfoldable pub check_items : List String → List ItemInput → Attempt (List RequestedItem)
check_items ids [] = ok []
check_items ids (input ∷ inputs) = do
  item ← check_fields ids input.payment_item_id input.refund_count
  items ← check_items (item.payment_item_id ∷ ids) inputs
  ok (item ∷ items)

unfoldable pub validate_item_input : List ItemInput → Attempt (List RequestedItem)
unfolding check_items check_fields
validate_item_input [] = err no_items
validate_item_input inputs = check_items [] inputs

-- The items of a stored request as `validateItemInput` reads them.
abbrev pub stored_input : RefundRequestItem → ItemInput
stored_input i = record {
  payment_item_id = some i.payment_item_id;
  refund_count = four i.refund_count;
}

-- `REFUND_REASON_KEYS`
abbrev refund_reason_keys : List String
refund_reason_keys =
    "DAMAGED" ∷ "DEFECTIVE" ∷ "WRONG_ITEM" ∷ "MISSING_PARTS" ∷ "NOT_AS_DESCRIBED" ∷ "CHANGED_MIND"
    ∷ "OTHER" ∷ []

unfoldable pub validate_refund_reasons : List String → Attempt (Unit {0})
validate_refund_reasons [] = err no_reason
validate_refund_reasons keys =
    throw_if (any (λ key. not (includes refund_reason_keys key)) keys) no_reason

abbrev pub max_note_length : ℕ
max_note_length = 10_000

unfoldable pub validate_note : Option String → Attempt (Unit {0})
validate_note none = ok tt
validate_note (some note) = throw_if (ltb max_note_length (utf16_length note)) long_note

-- The set of sellers has one member, which is neither undefined nor ''.
abbrev is_single_seller : List Field → Bool
is_single_seller [] = false
is_single_seller (s ∷ ss) =
    all (field_eq s) ss && not (field_eq s undefined) && not (field_eq s (value ""))

unfoldable pub assert_items_belong_to_single_seller : Payment → List String → Attempt (Unit {0})
assert_items_belong_to_single_seller p ids = do
  items ← map_result (get_payment_item p) ids
  throw_if (not (is_single_seller (map (λ (i : PaymentItem). i.seller_account_id) items)))
      several_sellers

-- The items of the requests that refund one payment item.
abbrev pub items_of : String → List RefundRequest → List RefundRequestItem
items_of id requests =
    filter (λ c. str_eq c.payment_item_id id) (flat_map (λ (r : RefundRequest). r.items) requests)

-- The PENDING and APPROVED requests of the payment.
abbrev pub reservations_of : Payment → List RefundRequest → List RefundRequest
reservations_of p =
    filter (λ r. str_eq r.payment_id p.id && (is_pending r.status || is_approved r.status))

module _ (b : BigJs Amount) where
  -- the test of `validateRefundItems` on one item
  unfoldable pub check_quantity : Payment → RequestedItem → Attempt (Unit {0})
  check_quantity p requested = do
    item ← get_payment_item p requested.payment_item_id
    throw_if
        (ltb_ℤ item.quantity
          (add_number_values b (item.refund_count ∷ requested.refund_count ∷ [])))
        (too_many item.name)

  check_quantities : Payment → List RequestedItem → Attempt (Unit {0})
  check_quantities p [] = ok tt
  check_quantities p (r ∷ rs) = do check_quantity p r; check_quantities p rs

  unfoldable pub validate_refund_items : Payment → List ItemInput → Attempt (List RequestedItem)
  unfolding check_quantities
  validate_refund_items p inputs = do
    items ← validate_item_input inputs
    check_quantities p items
    ok items

  -- The `reduce` over the pending items of one payment item, from the total so far.
  unfoldable pub reserved_from : Amount → List RefundRequestItem → Amount
  reserved_from total [] = total
  reserved_from total (c ∷ cs) =
      reserved_from (add_number_values b (total ∷ c.refund_count ∷ [])) cs

  -- the test of `validateNewRefundRequest` on one item, against the pending requests
  unfoldable pub check_reserved : Payment → List RefundRequest → RequestedItem → Attempt (Unit {0})
  check_reserved p pending requested = do
    item ← get_payment_item p requested.payment_item_id
    let reserved = reserved_from (pos 0) (items_of item.id pending)
    throw_if
        (ltb_ℤ item.quantity
          (add_number_values b (item.refund_count ∷ reserved ∷ requested.refund_count ∷ [])))
        (already_reserved item.name)

  unfoldable pub check_all_reserved :
      Payment → List RefundRequest → List RequestedItem → Attempt (Unit {0})
  check_all_reserved p pending [] = ok tt
  check_all_reserved p pending (r ∷ rs) = do
    check_reserved p pending r
    check_all_reserved p pending rs

  unfoldable pub validate_new_refund_request :
      List RefundRequest
      → Payment
      → CreateRefundRequest
      → Attempt (List RequestedItem × List RefundRequest)
  validate_new_refund_request requests p dto = do
    assert_payment_is_refundable p
    items ← validate_refund_items p dto.items
    assert_items_belong_to_single_seller p (map (λ (i : RequestedItem). i.payment_item_id) items)
    validate_refund_reasons dto.reason_keys
    validate_note dto.request_note
    let reservations = reservations_of p requests
    check_all_reserved p (filter (λ r. is_pending r.status) reservations) items
    ok (items, reservations)
