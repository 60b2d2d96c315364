-- ===== src/Refund/Lease.antt =====
-- The lease of an approval in `RefundService`: `approveRequest`, `assertNoApprovalInProgress`.
use mathlib.Core.Option.{some-injective}
use postral_core.Prelude.{
  ℕ, ◌+◌, ◌<◌, String, ◌≡◌, refl, sym, ap, ◌∙◌, true, false, not, Option, none, some, find,
  update_where, ok, err, >>=-returned, throw_if, throw_if-ok, str_eq, str_eq_refl, opt_eq, is_empty,
  find_key, find-update_where, arith,
}
use postral_core.Amount.{Amount, BigJs}
use postral_core.Entity.Payment.{Payment}
use postral_core.Entity.Refund.{RefundRequest}
use postral_core.Refund.Checks.{assert_no_approval_in_progress}
use postral_core.Refund.Failure.{lease_changed, approval_in_progress}
use postral_core.Refund.Store.{
  Store, update_payment, has_payment_id, with_payment_lock-ok, find_request,
}
use postral_core.Refund.Reservation.Finish.{finish_request-effect, finished, refunded}
use postral_core.Refund.Service.{reject_request}
use postral_core.Refund.Approval.{
  lease_time, take_lease, drop_lease, claim_request, claim_approval, finish_approval,
}

module _ (b : BigJs Amount) where
  pub claim_request-lease :
      (now : ℕ) (token : String) (s : Store) (p : Payment) (r : RefundRequest) {s' : Store}
      {q : RefundRequest} {t : String}
      → claim_request b now token s p r ≡ ok (s', (q, some t))
      → (t ≡ token)
        × (assert_no_approval_in_progress now p ≡ ok tt)
        × (s' ≡ update_payment p.id (take_lease now token) s)
  unfolding claim_request
  claim_request-lease now token s p r h = ground arith

-- The payment that a search finds after an update of the payment `p`.
find-updated :
    (f : Payment → Payment)
    → ((p : Payment) → (f p).id ≡ p.id)
    → (id : String) (s : Store) (p : Payment) {q : Payment}
    → find (has_payment_id id) s.payments ≡ some p
    → find (has_payment_id id) (update_where (has_payment_id p.id) f s.payments) ≡ some q
    → q ≡ f p
find-updated f keeps id s p {q} hp hq =
    let (x, hx, e) =
      find-update_where (λ (p : Payment). p.id) (has_payment_id p.id) f keeps id s.payments hq in
    let same : x ≡ p = some-injective _ _ (sym hx ∙ hp) in
    let hit : has_payment_id p.id x ≡ true =
      ap (λ (x : Payment). str_eq x.id p.id) same ∙ str_eq_refl p.id in
    (rw hit at e) ∙ ap f same

module _ (b : BigJs Amount) where
  -- A claim leaves a live lease on the payment.
  claim_approval-lease :
      (now : ℕ) (token : String) (initial : RefundRequest) (s : Store) {s' : Store}
      {q : RefundRequest} {t : String}
      → claim_approval b now token initial s ≡ ok (s', (q, some t))
      → (p' : Payment) → find (has_payment_id initial.payment_id) s'.payments ≡ some p'
      → (p'.refund_approval_token ≡ some token)
        × (p'.refund_approval_expires_at ≡ some (now + lease_time))
  unfolding claim_approval
  claim_approval-lease now token initial s h p' hp' =
      let (p, hp, action) = with_payment_lock-ok initial.payment_id _ s h in
      let (r, hr, claimed) = >>=-returned (find_request initial.id s) _ action in
      let (_, _, effect) = claim_request-lease b now token s p r claimed in
      let row =
        find-updated (take_lease now token) (λ _. refl) initial.payment_id s p hp
          (ap (λ (s : Store). find (has_payment_id initial.payment_id) s.payments) (sym effect)
            ∙ hp') in
      (
        ap (λ (p : Payment). p.refund_approval_token) row,
        ap (λ (p : Payment). p.refund_approval_expires_at) row,
      )

  live :
      (now time : ℕ) (token : String) (p : Payment)
      → is_empty (some token) ≡ false
      → now < time
      → p.refund_approval_token ≡ some token
      → p.refund_approval_expires_at ≡ some time
      → assert_no_approval_in_progress now p ≡ err approval_in_progress
  unfolding assert_no_approval_in_progress
  live now time token p named early h h' = rw (h, h', named) (ground arith)

  clash :
      (p : Payment) (now : ℕ)
      → assert_no_approval_in_progress now p ≡ err approval_in_progress
      → ¬ (assert_no_approval_in_progress now p ≡ ok tt)
  clash p now h h' = cc

  -- While the lease of an approval runs, no second approval of a request on the same payment gets a
  -- lease: after a claim that took one with a token that is not empty, a claim at a time before the
  -- five minutes are over takes none.
  pub claim_approval-excludes :
      (now later : ℕ) (token token' : String) (initial other : RefundRequest) (s : Store)
      {s' s'' : Store} {q q' : RefundRequest} {t t' : String}
      → is_empty (some token) ≡ false
      → later < now + lease_time
      → other.payment_id ≡ initial.payment_id
      → claim_approval b now token initial s ≡ ok (s', (q, some t))
      → ¬ (claim_approval b later token' other s' ≡ ok (s'', (q', some t')))
  unfolding claim_approval
  claim_approval-excludes now later token token' initial other s {s' = s'} named early same first
        second =
      let (p', hp', action) = with_payment_lock-ok other.payment_id _ s' second in
      let (r, hr, claimed) = >>=-returned (find_request other.id s') _ action in
      let (_, free, _) = claim_request-lease b later token' s' p' r claimed in
      let (owner, expires) =
        claim_approval-lease now token initial s first p'
          (ap (λ k. find (has_payment_id k) s'.payments) (sym same) ∙ hp') in
      clash p' later (live later (now + lease_time) token p' named early owner expires) free

  -- While the lease of an approval runs, a rejection that reads the payment fails: it says that an
  -- approval is in progress.
  pub reject_request-excluded :
      (now later : ℕ) (token user id : String) (text : Option String) (initial : RefundRequest)
      (s : Store) {s' : Store} {q : RefundRequest} {t : String}
      → is_empty (some token) ≡ false
      → later < now + lease_time
      → claim_approval b now token initial s ≡ ok (s', (q, some t))
      → (p' : Payment) → find (has_payment_id initial.payment_id) s'.payments ≡ some p'
      → reject_request later user id text s' p' ≡ err approval_in_progress
  unfolding reject_request
  reject_request-excluded now later token user id text initial s named early first p' hp' =
      let (owner, expires) = claim_approval-lease now token initial s first p' hp' in
      rw (live later (now + lease_time) token p' named early owner expires)

  dropped :
      (s : Store) (id : String) (p q : Payment) (r : RefundRequest) (actor : String)
      (text : Option String)
      → p.id ≡ id
      → find (has_payment_id id) (finished b p r actor text s).payments ≡ some q
      → q.refund_approval_token ≡ none
  dropped s id p q r actor text key hq =
      let before = update_where (has_payment_id p.id) (refunded b r) s.payments in
      let (x, hx, e) =
        find-update_where (λ (p : Payment). p.id) (has_payment_id p.id) drop_lease (λ _. refl) id
          before hq in
      let hit : has_payment_id p.id x ≡ true =
        ap (λ k. str_eq k p.id) (find_key (λ (p : Payment). p.id) id before hx ∙ sym key)
        ∙ str_eq_refl p.id in
      ap (λ (p : Payment). p.refund_approval_token) (rw hit at e)

  -- An approval that finished has dropped its lease: after it, no approval of a request on the same
  -- payment finishes with the same token.
  pub finish_approval-once :
      (token actor actor' : String) (text text' : Option String) (initial other : RefundRequest)
      (s : Store) {s' s'' : Store} {r r' : RefundRequest}
      → other.payment_id ≡ initial.payment_id
      → finish_approval b token actor text initial s ≡ ok (s', r)
      → ¬ (finish_approval b token actor' text' other s' ≡ ok (s'', r'))
  unfolding finish_approval
  finish_approval-once token actor actor' text text' initial other s {s' = s'} same first second =
      let (p, hp, action) = with_payment_lock-ok initial.payment_id _ s first in
      let (_, _, leased) =
        >>=-returned (throw_if (not (opt_eq p.refund_approval_token (some token))) lease_changed) _
          action in
      let (q, _, done) = >>=-returned (find_request initial.id s) _ leased in
      let (_, effect) = finish_request-effect b token actor text s p q done in
      let (p', hp', action') = with_payment_lock-ok other.payment_id _ s' second in
      let (_, ours, _) =
        >>=-returned (throw_if (not (opt_eq p'.refund_approval_token (some token))) lease_changed) _
          action' in
      let key = find_key (λ (p : Payment). p.id) initial.payment_id s.payments hp in
      let gone = dropped s initial.payment_id p p' q actor text key (
        ap (λ (s : Store). find (has_payment_id initial.payment_id) s.payments) (sym effect)
        ∙ ap (λ k. find (has_payment_id k) s'.payments) (sym same)
        ∙ hp') in
      not_ours token p' gone (throw_if-ok _ _ ours)
    where
      not_ours :
          (token : String) (p : Payment)
          → p.refund_approval_token ≡ none
          → ¬ (not (opt_eq p.refund_approval_token (some token)) ≡ false)
      not_ours token p h e = ground arith
