-- ===== src/Refund/Again.antt =====
-- A refund that another application asks for again: `RefundService.startRefundMicroservice`.
use mathlib.Core.Path.{subst}
use postral_core.Prelude.{
  Bool-cases, inl, inr, length, any, all, map_result, parts_eq, str_eq, str_eq_refl, ap, [], ◌∷◌,
  suc, ◌++◌, String, ◌≡◌, refl, sym, ◌∙◌, Bool, true, ◌||◌, arith, Option, none, some, List, find,
  ok, >>=-returned, throw_if, or_throw, opt_eq, is_blank, utf16_length, ltb,
}
use postral_core.Amount.{Amount, BigJs}
use postral_core.Entity.Status.{RefundRequestStatus}
use postral_core.Entity.Payment.{Payment}
use postral_core.Entity.Refund.{RefundRequest, RefundRequestItem}
use postral_core.Refund.Build.{build_requested_item}
use postral_core.Refund.Failure.{payment_id_required, payment_not_found, bad_idempotency_key}
use postral_core.Refund.Checks.{
  RequestedItem, CreateRefundRequest, validate_item_input, validate_note, validate_refund_reasons,
  assert_payment_is_refundable, assert_pending_refund_request,
}
use postral_core.Refund.Store.{with_payment_lock, Store, insert_request, has_payment_id}
use postral_core.Refund.Service.{insert_new_request}
use postral_core.Refund.System.{
  same_item, matches_request, resume_request, start_or_resume, start_refund,
}
use postral_core.Refund.Reservation.Create.{
  build_requested_item-ok, build_entity-ok, validate_new-ok, insert_new_request-effect,
}
use postral_core.Refund.Reservation.Resume.{resume_request-effect}

find-append_last :
    (p : RefundRequest → Bool) (xs : List RefundRequest) (y : RefundRequest)
    → find p xs ≡ none
    → p y ≡ true
    → find p (xs ++ (y ∷ [])) ≡ some y
find-append_last p [] y h e = rw e
find-append_last p (x ∷ xs) y h e = elim (Bool-cases (p x)) [
  | inl hit ↦ absurd_some (rw hit at h)
  | inr miss ↦ rw miss (find-append_last p xs y (rw miss at h) e)
]
  where
    absurd_some : {q : RefundRequest} → some q ≡ none → find p ((x ∷ xs) ++ (y ∷ [])) ≡ some y
    absurd_some h = cc

resume_pending :
    (dto : CreateRefundRequest) (items : List RequestedItem) (s : Store) (r : RefundRequest)
    → matches_request dto items r ≡ true
    → r.status ≡ RefundRequestStatus.pending
    → resume_request dto items s r ≡ ok (s, r)
unfolding resume_request assert_pending_refund_request
resume_pending dto items s r matches pending = rw (matches, pending)

abbrev has_key : String → RefundRequest → Bool
has_key key r = opt_eq r.idempotency_key (some key)

same_item_lem :
    (c : RefundRequestItem) (r : RequestedItem)
    → c.payment_item_id ≡ r.payment_item_id
    → c.refund_count ≡ r.refund_count
    → same_item c r ≡ true
same_item_lem c r name count =
    let names = ap (λ k. str_eq r.payment_item_id k) name ∙ str_eq_refl r.payment_item_id in
    rw names (ground (arith, parts_eq count))

all-any :
    (cs : List RefundRequestItem) (r : RequestedItem) (rs : List RequestedItem)
    → all (λ c. any (same_item c) rs) cs ≡ true
    → all (λ c. any (same_item c) (r ∷ rs)) cs ≡ true
all-any [] r rs h = refl
all-any (c ∷ cs) r rs h = ground (arith, all-any cs r rs)

module _ (b : BigJs Amount) where
  built_matches :
      (p : Payment) (reservations : List RefundRequest) (rs : List RequestedItem)
      {cs : List RefundRequestItem}
      → map_result (build_requested_item b p reservations) rs ≡ ok cs
      → (length cs ≡ length rs) × (all (λ c. any (same_item c) rs) cs ≡ true)
  built_matches p reservations [] {cs} h =
      subst (λ cs. (length cs ≡ 0) × (all (λ c. any (same_item c) []) cs ≡ true)) {x = []} {y = cs}
        (cc) (refl, refl)
  built_matches p reservations (r ∷ rs) {cs} h =
      let (c, hc, tail) = >>=-returned (build_requested_item b p reservations r) _ h in
      let (cs', hcs, done) =
        >>=-returned (map_result (build_requested_item b p reservations) rs) _ tail in
      let (name, count) = build_requested_item-ok b p reservations r hc in
      let (lengths, matches) = built_matches p reservations rs hcs in
      subst
        (λ cs. (length cs ≡ suc (length rs)) × (all (λ c. any (same_item c) (r ∷ rs)) cs ≡ true))
        {x = c ∷ cs'} {y = cs} (cc)
        (ap suc lengths, rw (same_item_lem c r name count) (all-any cs' r rs matches))

  inserted_matches :
      (id key actor : String) (dto : CreateRefundRequest) (items : List RequestedItem) (s : Store)
      (p : Payment) {s' : Store} {r : RefundRequest}
      → validate_item_input dto.items ≡ ok items
      → insert_new_request b id (some key) actor dto s p ≡ ok (s', r)
      → (s' ≡ insert_request r s)
        × (r.idempotency_key ≡ some key)
        × (r.status ≡ RefundRequestStatus.pending)
        × (matches_request dto items r ≡ true)
  unfolding matches_request
  inserted_matches id key actor dto items s p {r = r} input h =
      let (rs, reservations, valid, built, effect) =
        insert_new_request-effect b id (some key) actor dto s p h in
      let (input', _, _) = validate_new-ok b s.requests p dto valid in
      let (_, payment_id, status, key_kept, made) =
        build_entity-ok b id (some key) actor dto rs p reservations built in
      let (lengths, matches) = built_matches p reservations rs made in
      let both = sym input' ∙ input in
      let same : rs ≡ items = cc in
      (
        effect,
        key_kept,
        status,
        subst (λ items. matches_request dto items r ≡ true) same
            (rw
              (
                ap (λ k. str_eq k dto.payment_id) payment_id,
                str_eq_refl dto.payment_id,
                lengths,
                matches,
              )
              (ground arith)),
      )

  start_or_resume-again :
      (id id' key : String) (dto : CreateRefundRequest) (items : List RequestedItem) (s : Store)
      (p : Payment) {s' : Store} {r : RefundRequest}
      → validate_item_input dto.items ≡ ok items
      → start_or_resume b id key dto items s p (find (has_key key) s.requests) ≡ ok (s', r)
      → (s'.payments ≡ s.payments)
        × (start_or_resume b id' key dto items s' p (find (has_key key) s'.requests) ≡ ok (s', r))
  unfolding start_or_resume
  start_or_resume-again id id' key dto items s p {s'} {r} input h =
      go (find (has_key key) s.requests) refl h
    where
      go :
          (known : Option RefundRequest)
          → find (has_key key) s.requests ≡ known
          → start_or_resume b id key dto items s p known ≡ ok (s', r)
          → (s'.payments ≡ s.payments)
            × (start_or_resume b id' key dto items s' p (find (has_key key) s'.requests)
                ≡ ok (s', r))
      go (some q) e h =
          let (same, _, _) = resume_request-effect dto items s q h in
          (
            ap (λ (s : Store). s.payments) same,
            ap
                  (λ (z : Store).
                    start_or_resume b id' key dto items z p (find (has_key key) z.requests))
                  same
                ∙ ap (start_or_resume b id' key dto items s p) e
                ∙ h,
          )
      go none e h =
          let (effect, keyed, pending, matches) =
            inserted_matches id key "system" dto items s p input h in
          let found =
            ap (λ (s : Store). find (has_key key) s.requests) effect
            ∙ find-append_last (has_key key) s.requests r e
                (ap (λ k. opt_eq k (some key)) keyed ∙ str_eq_refl key) in
          (
            ap (λ (s : Store). s.payments) effect,
            ap (start_or_resume b id' key dto items s' p) found
                ∙ resume_pending dto items s' r matches pending,
          )

  start_refund_lem :
      (id key : String) (sent : Option String) (dto : CreateRefundRequest) (s : Store)
      (items : List RequestedItem) (p : Payment)
      → or_throw sent bad_idempotency_key ≡ ok key
      → throw_if (is_blank key || ltb 200 (utf16_length key)) bad_idempotency_key ≡ ok tt
      → validate_refund_reasons dto.reason_keys ≡ ok tt
      → validate_note dto.request_note ≡ ok tt
      → validate_item_input dto.items ≡ ok items
      → throw_if (is_blank dto.payment_id) payment_id_required ≡ ok tt
      → or_throw (find (has_payment_id dto.payment_id) s.payments) payment_not_found ≡ ok p
      → assert_payment_is_refundable p ≡ ok tt
      → start_refund b id sent dto s
        ≡ start_or_resume b id key dto items s p (find (has_key key) s.requests)
  unfolding start_refund with_payment_lock
  start_refund_lem id key sent dto s items p e0 e1 e2 e3 e4 e5 e6 e7 =
      rw (e0, e1, e2, e3, e4, e5, e6, e7)

  -- A refund that was started is started again with the same key and the same request: the tables
  -- stay as they are, and the answer is the request of the first time.
  pub start_refund-again :
      (id id' : String) (sent : Option String) (dto : CreateRefundRequest) (s : Store) {s' : Store}
      {r : RefundRequest}
      → start_refund b id sent dto s ≡ ok (s', r)
      → start_refund b id' sent dto s' ≡ ok (s', r)
  unfolding start_refund with_payment_lock
  start_refund-again id id' sent dto s {s'} h =
      let (key, e0, h1) = >>=-returned (or_throw sent bad_idempotency_key) _ h in
      let (_, e1, h2) =
        >>=-returned (throw_if (is_blank key || ltb 200 (utf16_length key)) bad_idempotency_key) _
          h1 in
      let (_, e2, h3) = >>=-returned (validate_refund_reasons dto.reason_keys) _ h2 in
      let (_, e3, h4) = >>=-returned (validate_note dto.request_note) _ h3 in
      let (items, e4, h5) = >>=-returned (validate_item_input dto.items) _ h4 in
      let (_, e5, h6) =
        >>=-returned (throw_if (is_blank dto.payment_id) payment_id_required) _ h5 in
      let (p, e6, h7) =
        >>=-returned (or_throw (find (has_payment_id dto.payment_id) s.payments) payment_not_found)
          _ h6 in
      let (_, e7, h8) = >>=-returned (assert_payment_is_refundable p) _ h7 in
      let (kept, again) = start_or_resume-again id id' key dto items s p e4 h8 in
      let read =
        ap
          (λ (ps : List Payment).
            or_throw (find (has_payment_id dto.payment_id) ps) payment_not_found)
          kept
        ∙ e6 in
      start_refund_lem id' key sent dto s' items p e0 e1 e2 e3 e4 e5 read e7 ∙ again
