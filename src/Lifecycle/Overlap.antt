-- ===== src/Lifecycle/Overlap.antt =====
-- A start that saves after another call has completed the payment.
use postral_core.Prelude.{
  ◌≡◌, refl, ap, ◌∙◌, ℕ, Bool, true, false, Option, none, some, List, [], ◌∷◌, ◌++◌, if◌then◌else◌,
  ok, or_throw, or_throw-ok,
}
use mathlib.Core.Path.{subst}
use postral_core.Amount.{Amount, BigJs}
use postral_core.Entity.Status.{PaymentStatus}
use postral_core.Entity.Payment.{Payment}
use postral_core.Entity.Operation.{PaymentChannelOperation}
use postral_core.Channel.Operations.{Answer, fire_payment_operations}
use postral_core.Lifecycle.{Books, PaymentFailure, find_payment, save, is_resolved, is_paid}
use postral_core.Lifecycle.Rows.{find-saved_own}
use postral_core.Lifecycle.Calls.{
  Call, starting, updating, completing, judging, begin_start, begin_update, after_firing, resume,
}
use postral_core.Lifecycle.Moves.{begun, Moves, stay, more, starts, updates, to_list}
use postral_core.Lifecycle.Runs.{run, Moves-trans, Moves-run}

abbrev as_completed : Payment → Payment
as_completed p = record p { payment_status = PaymentStatus.completed }

abbrev as_waiting : Payment → Payment
as_waiting p = record p { payment_status = PaymentStatus.waiting }

-- The books after an update of a payment that is paid.
abbrev completed_books : Payment → List PaymentChannelOperation → Books → Books
completed_books p operations s = record (save (as_completed p) s) {
  operations = operations;
  posted = p.id ∷ s.posted;
}

begin_start-ok :
    (p : Payment) (s : Books)
    → find_payment p.id s ≡ ok p
    → is_resolved p.payment_status ≡ false
    → begin_start p.id s ≡ ok (starting p)
unfolding begin_start
begin_start-ok p s h unresolved = rw (h, unresolved) refl

begin_update-ok :
    (p : Payment) (s : Books)
    → find_payment p.id s ≡ ok p
    → is_resolved p.payment_status ≡ false
    → begin_update p.id s ≡ ok (some (updating p))
unfolding begin_update
begin_update-ok p s h unresolved = rw (h, unresolved) refl

-- The row that the start has saved.
started_again :
    (p : Payment) (s : Books) (operations : List PaymentChannelOperation)
    → find_payment p.id s ≡ ok p
    → find_payment p.id (save (as_waiting p) (completed_books p operations s)) ≡ ok (as_waiting p)
started_again p s operations h =
    ap (λ o. or_throw o PaymentFailure.payment_not_found)
      (find-saved_own (as_waiting p) (save (as_completed p) s).payments (
        find-saved_own (as_completed p) s.payments
          (or_throw-ok _ PaymentFailure.payment_not_found h)))

module _ (b : BigJs Amount) (seller_pays : Bool) (fire : Answer) (expire_ms now : ℕ) where
  update_paid-run :
      (p : Payment) (s : Books) (operations : List PaymentChannelOperation)
      → is_paid b seller_pays fire p s ≡ true
      → fire_payment_operations seller_pays fire p.id s.operations ≡ (operations, ok tt)
      → run b seller_pays fire expire_ms now 4 (some (updating p)) s
        ≡ (completed_books p operations s, none)
  unfolding resume after_firing
  update_paid-run p s operations paid fired =
      ap
        (λ t.
          run b seller_pays fire expire_ms now 3
            (some (if t then completing (as_completed p) else judging p)) s)
        paid
      ∙ ap
          (λ r.
            let (s', next) = after_firing (as_completed p) (save (as_completed p) s) r in
            run b seller_pays fire expire_ms now 1 next s')
          fired

  update_paid-Moves :
      (p : Payment) (s : Books) (operations : List PaymentChannelOperation) (calls : List Call)
      → find_payment p.id s ≡ ok p
      → is_resolved p.payment_status ≡ false
      → is_paid b seller_pays fire p s ≡ true
      → fire_payment_operations seller_pays fire p.id s.operations ≡ (operations, ok tt)
      → Moves b
          (record { books = s; calls = calls })
          (record { books = completed_books p operations s; calls = calls })
  update_paid-Moves p s operations calls h unresolved paid fired =
      Moves-trans b _ _ _
        (more stay (begun (updating p) (updates p.id (begin_update-ok p s h unresolved))))
        (subst
          (λ (r : Books × Option Call).
            Moves b (record { books = s; calls = updating p ∷ calls })
              (record { books = r.0; calls = to_list r.1 ++ calls }))
          (update_paid-run p s operations paid fired)
          (Moves-run b seller_pays fire expire_ms now 4 (some (updating p)) s calls))

  start-Moves :
      (p : Payment) (s : Books)
      → Moves b
          (record { books = s; calls = starting p ∷ [] })
          (record { books = save (as_waiting p) s; calls = [] })
  unfolding resume
  start-Moves p s = Moves-run b seller_pays fire expire_ms now 2 (some (starting p)) s []

  -- If a payment is there, not resolved and paid, its operations can be fired, and after that it is
  -- paid still and what there is to fire can be fired, then calls can overlap so that its orders and
  -- transactions are made twice: a start reads the payment, an update completes it, the start saves
  -- it as waiting, and a second update completes it once more.
  pub start-posts_twice :
      (p : Payment) (s : Books) (operations operations' : List PaymentChannelOperation)
      → find_payment p.id s ≡ ok p
      → is_resolved p.payment_status ≡ false
      → is_paid b seller_pays fire p s ≡ true
      → fire_payment_operations seller_pays fire p.id s.operations ≡ (operations, ok tt)
      → is_paid b seller_pays fire p (record s { operations = operations }) ≡ true
      → fire_payment_operations seller_pays fire p.id operations ≡ (operations', ok tt)
      → (s' : Books) × Moves b
          (record { books = s; calls = [] })
          (record { books = s'; calls = [] })
        × (s'.posted ≡ p.id ∷ p.id ∷ s.posted)
  unfolding is_paid
  start-posts_twice p s operations operations' h unresolved paid fired paid' fired' =
      let middle = completed_books p operations s in
      let again = save (as_waiting p) middle in
      (
        completed_books (as_waiting p) operations' again,
        Moves-trans b _ _ _
            (more stay (begun (starting p) (starts p.id (begin_start-ok p s h unresolved))))
            (Moves-trans b _ _ _
              (update_paid-Moves p s operations (starting p ∷ []) h unresolved paid fired)
              (Moves-trans b _ _ _ (start-Moves p middle) (
                update_paid-Moves (as_waiting p) again operations' []
                  (started_again p s operations h) refl paid' fired'))),
        refl,
      )
