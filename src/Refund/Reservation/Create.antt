-- ===== src/Refund/Reservation/Create.antt =====
-- A new request reserves quantities that are left.
use mathlib.Core.Option.{some-injective}
use mathlib.Core.Path.{subst}
use postral_core.Prelude.{
  String, ◌≡◌, refl, sym, ap, ap₂, ◌∙◌, Option, none, some, List, [], ◌∷◌, ◌++◌, find, filter,
  str_eq, str_eq→eq, find_key, ok, >>=-returned, map_result, All, All-append, pos, ◌+ℤ◌, ◌≤ℤ◌,
  arith, int_laws, parts_eq, Bool-cases, inl, inr,
}
use postral_core.Amount.{Amount, BigJs, IsExact}
use postral_core.Entity.Status.{RefundRequestStatus, is_pending}
use postral_core.Entity.Payment.{Payment, PaymentItem}
use postral_core.Entity.Refund.{RefundRequest, RefundRequestItem}
use postral_core.Refund.Checks.{
  CreateRefundRequest, RequestedItem, validate_new_refund_request, validate_refund_items,
  validate_item_input, reservations_of, check_all_reserved,
}
use postral_core.Refund.Build.{
  build_item, build_requested_item, build_refund_request_items, build_refund_request_entity,
}
use postral_core.Refund.Store.{
  Store, insert_request, has_payment_id, has_item_id, with_payment_lock-ok,
}
use postral_core.Refund.Service.{insert_new_request, create_refund_request}
use postral_core.Refund.Reservation.Counts.{
  IsFresh, count_in, part-own, part-other, held, held-insert, HasUniqueIds-insert,
}
use postral_core.Refund.Reservation.Requested.{
  requested_count, IsDistinct, validate_item_input-IsDistinct, check_all_reserved-le,
}
use postral_core.Refund.Reservation.Invariant.{Fits, HasPositiveCounts, IsReserved}

count_cons :
    (id : String) (c : RefundRequestItem) (r : RequestedItem) (cs : List RefundRequestItem)
    (rs : List RequestedItem)
    → c.payment_item_id ≡ r.payment_item_id
    → c.refund_count ≡ r.refund_count
    → count_in id cs ≡ requested_count id rs
    → count_in id (c ∷ cs) ≡ requested_count id (r ∷ rs)
count_cons id c r cs rs name count rest =
    let test = ap (λ k. str_eq k id) name in
    elim (Bool-cases (str_eq r.payment_item_id id)) [
      | inl hit ↦ rw (test ∙ hit, hit) (ap₂ ◌+ℤ◌ count rest)
      | inr miss ↦ rw (test ∙ miss, miss) rest
    ]

module _ (b : BigJs Amount) where
  pub build_requested_item-ok :
      (p : Payment) (reservations : List RefundRequest) (r : RequestedItem) {c : RefundRequestItem}
      → build_requested_item b p reservations r ≡ ok c
      → (c.payment_item_id ≡ r.payment_item_id) × (c.refund_count ≡ r.refund_count)
  unfolding build_requested_item build_item
  build_requested_item-ok p reservations r h = ground arith

  -- The items that were built hold the quantities that were requested.
  build_items-count :
      (p : Payment) (reservations : List RefundRequest) (ids : List String)
      (rs : List RequestedItem) {cs : List RefundRequestItem}
      → IsDistinct ids rs
      → map_result (build_requested_item b p reservations) rs ≡ ok cs
      → ((id : String) → count_in id cs ≡ requested_count id rs)
        × All (λ (c : RefundRequestItem). pos 1 ≤ℤ c.refund_count) cs
  build_items-count p reservations ids [] {cs} d h =
      subst
        (λ cs.
          ((id : String) → count_in id cs ≡ requested_count id [])
          × All (λ (c : RefundRequestItem). pos 1 ≤ℤ c.refund_count) cs)
        {x = []} {y = cs} (cc) (λ id. refl, tt)
  build_items-count p reservations ids (r ∷ rs) {cs} (_, positive, d) h =
      let (c, hc, tail) = >>=-returned (build_requested_item b p reservations r) _ h in
      let (cs', hcs, done) =
        >>=-returned (map_result (build_requested_item b p reservations) rs) _ tail in
      let (name, count) = build_requested_item-ok p reservations r hc in
      let (counts, positives) =
        build_items-count p reservations (r.payment_item_id ∷ ids) rs d hcs in
      subst
        (λ cs.
          ((id : String) → count_in id cs ≡ requested_count id (r ∷ rs))
          × All (λ (c : RefundRequestItem). pos 1 ≤ℤ c.refund_count) cs)
        {x = c ∷ cs'} {y = cs} (cc)
        (
          λ id. count_cons id c r cs' rs name count (counts id),
          (omega (int_laws, parts_eq count, positive), positives),
        )

  pub build_entity-ok :
      (id : String) (key : Option String) (actor : String) (dto : CreateRefundRequest)
      (rs : List RequestedItem) (p : Payment) (reservations : List RefundRequest)
      {r : RefundRequest}
      → build_refund_request_entity b id key actor dto rs p reservations ≡ ok r
      → (r.id ≡ id)
        × (r.payment_id ≡ dto.payment_id)
        × (r.status ≡ RefundRequestStatus.pending)
        × (r.idempotency_key ≡ key)
        × (map_result (build_requested_item b p reservations) rs ≡ ok r.items)
  unfolding build_refund_request_entity build_refund_request_items
  build_entity-ok id key actor dto [] p reservations h = cc
  build_entity-ok id key actor dto (first ∷ rest) p reservations h = ground arith

  pub validate_new-ok :
      (requests : List RefundRequest) (p : Payment) (dto : CreateRefundRequest)
      {rs : List RequestedItem} {reservations : List RefundRequest}
      → validate_new_refund_request b requests p dto ≡ ok (rs, reservations)
      → (validate_item_input dto.items ≡ ok rs)
        × (check_all_reserved b p
              (filter (λ r. is_pending r.status) (reservations_of p requests))
              rs
            ≡ ok tt)
        × (reservations ≡ reservations_of p requests)
  unfolding validate_new_refund_request validate_refund_items
  validate_new-ok requests p dto h = ground arith

  pub insert_new_request-effect :
      (id : String) (key : Option String) (actor : String) (dto : CreateRefundRequest) (s : Store)
      (p : Payment) {s' : Store} {r : RefundRequest}
      → insert_new_request b id key actor dto s p ≡ ok (s', r)
      → (rs : List RequestedItem) × (reservations : List RefundRequest)
        × (validate_new_refund_request b s.requests p dto ≡ ok (rs, reservations))
        × (build_refund_request_entity b id key actor dto rs p reservations ≡ ok r)
        × (s' ≡ insert_request r s)
  unfolding insert_new_request
  insert_new_request-effect id key actor dto s p {s'} {r} h =
      let (checked, valid, tail) =
        >>=-returned (validate_new_refund_request b s.requests p dto) _ h in
      let (r', built, done) =
        >>=-returned (build_refund_request_entity b id key actor dto checked.0 p checked.1) _
          tail in
      let same : r' ≡ r = cc in (checked.0, checked.1, valid, built ∙ ap ok same, cc)

-- The tables with one more pending request.
module _ {b : BigJs Amount} (exact : IsExact b) (s : Store) (p : Payment) (rs : List RequestedItem)
    (r : RefundRequest) (inv : IsReserved s) (distinct : IsDistinct [] rs)
    (checked : check_all_reserved b p
        (filter (λ r. is_pending r.status) (reservations_of p s.requests))
        rs
      ≡ ok tt)
    (owner : r.payment_id ≡ p.id) (pending : r.status ≡ RefundRequestStatus.pending)
    (counts : (id : String) → count_in id r.items ≡ requested_count id rs) where
  Fits-inserted :
      (pid iid : String) (x : Payment) (i : PaymentItem)
      → find (has_payment_id p.id) s.payments ≡ some p
      → find (has_payment_id pid) s.payments ≡ some x
      → find (has_item_id iid) x.items ≡ some i
      → Fits (s.requests ++ (r ∷ [])) pid iid i
  Fits-inserted pid iid x i hp hx hi =
      let old = inv.fits pid iid x i hx hi in
      let (approvals, pendings) = held-insert pid iid s.requests r pending in
      let counted = old.counted ∙ sym approvals in
      elim (Bool-cases (str_eq p.id pid)) [
        | inl same ↦
            let key = str_eq→eq p.id pid same in
            let row : x ≡ p =
              some-injective _ _
                (sym hx ∙ ap (λ k. find (has_payment_id k) s.payments) (sym key) ∙ hp) in
            let held_same = ap (λ k. held is_pending k iid s.requests) key in
            let bound =
              check_all_reserved-le exact p s.requests [] rs iid i
                (ap (λ (p : Payment). find (has_item_id iid) p.items) (sym row) ∙ hi) distinct
                (omega (int_laws, parts_eq held_same, old.within)) checked in
            let part_all = part-own pid iid r (owner ∙ key) ∙ counts iid in
            record {
              counted = counted;
              within =
                  omega (int_laws, parts_eq pendings, parts_eq part_all, parts_eq held_same, bound);
            }
        | inr other ↦
            let nothing = part-other pid iid r (ap (λ k. str_eq k pid) owner ∙ other) in
            record {
              counted = counted;
              within = omega (int_laws, parts_eq pendings, parts_eq nothing, old.within);
            }
      ]

module _ {b : BigJs Amount} (exact : IsExact b) where
  pub insert_new_request-IsReserved :
      (id : String) (key : Option String) (actor : String) (dto : CreateRefundRequest) (s : Store)
      (p : Payment) {s' : Store} {r : RefundRequest}
      → IsReserved s
      → IsFresh id s.requests
      → find (has_payment_id dto.payment_id) s.payments ≡ some p
      → insert_new_request b id key actor dto s p ≡ ok (s', r)
      → IsReserved s'
  insert_new_request-IsReserved id key actor dto s p {r = r} inv fresh hp h =
      let (rs, reservations, valid, built, effect) =
        insert_new_request-effect b id key actor dto s p h in
      let (inputs, reserved, _) = validate_new-ok b s.requests p dto valid in
      let (name, payment_id, status, _, items) =
        build_entity-ok b id key actor dto rs p reservations built in
      let distinct = validate_item_input-IsDistinct dto.items inputs in
      let (counts, positives) = build_items-count b p reservations [] rs distinct items in
      let own = find_key (λ (p : Payment). p.id) dto.payment_id s.payments hp in
      let owner = payment_id ∙ sym own in
      subst IsReserved (sym effect) (record {
        unique =
            HasUniqueIds-insert s.requests r inv.unique
              (subst (λ k. IsFresh k s.requests) (sym name) fresh);
        positive = All-append HasPositiveCounts s.requests (r ∷ []) inv.positive (positives, tt);
        fits = λ pid iid x i hx hi.
            Fits-inserted exact s p rs r inv distinct reserved owner status counts pid iid x i
              (ap (λ k. find (has_payment_id k) s.payments) own ∙ hp) hx hi;
      })

  -- A new request keeps the invariant, if the database gives it a new ID.
  pub create_refund_request-IsReserved :
      (id user : String) (dto : CreateRefundRequest) (s : Store) {s' : Store} {r : RefundRequest}
      → IsReserved s
      → IsFresh id s.requests
      → create_refund_request b id user dto s ≡ ok (s', r)
      → IsReserved s'
  unfolding create_refund_request
  create_refund_request-IsReserved id user dto s inv fresh h =
      let (p, hp, action) = with_payment_lock-ok dto.payment_id _ s h in
      insert_new_request-IsReserved id none user dto s p inv fresh hp action
