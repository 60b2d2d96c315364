-- ===== src/Lifecycle/Tests/Run.antt =====
-- An update of the payment that runs to its end, part by part.
use mathlib.Core.Path.{subst}
use postral_core.Prelude.{◌≡◌, refl, sym, false, some, List, [], ◌∷◌, ◌++◌, ok, ◌+ℤ◌, ◌*ℤ◌}
use postral_core.Amount.{add_number_values, plus_values}
use postral_core.Amount.Fractions.{fractions}
use postral_core.Entity.Status.{PaymentStatus}
use postral_core.Entity.Payment.{Payment}
use postral_core.Channel.Operations.{
  total_paid_or_authorized_of, fire_one, fire_each, fire_payment_operations,
}
use postral_core.Lifecycle.{is_paid}
use postral_core.Lifecycle.Calls.{
  Call, updating, completing, firing, posting, begin_update, after_firing, resume, Service,
}
use postral_core.Lifecycle.Moves.{begun, updates, resumed, Move, to_list}
use postral_core.Lifecycle.Alone.{NoRepeats, Alone, idle, next}
use postral_core.Lifecycle.Once.{AloneMoves-NoRepeats}
use postral_core.Lifecycle.Tests.{waiting_payment, captured_books, refuse}

-- One part of an update, while no other call is under way.
abbrev went : Call → Service → Service
went c v = record {
  books = (resume fractions false refuse 1_000 500 c v.books).0;
  calls = to_list ((resume fractions false refuse 1_000 500 c v.books).1) ++ [];
}

abbrev completed_payment : Payment
completed_payment = record waiting_payment { payment_status = PaymentStatus.completed }

abbrev quiet : Service
quiet = record { books = captured_books; calls = [] }

abbrev begun_update : Service
begun_update = record quiet { calls = updating waiting_payment ∷ [] }

abbrev counted : Service
counted = went (updating waiting_payment) begun_update

abbrev completed : Service
completed = went (completing completed_payment) counted

abbrev fired : Service
fired = went (firing completed_payment) completed

abbrev posted_once : Service
posted_once = went (posting false completed_payment) fired

begins_lem : begin_update "payment" captured_books ≡ ok (some (updating waiting_payment))
unfolding begin_update
begins_lem = refl

counted_calls : counted.calls ≡ completing completed_payment ∷ []
unfolding resume is_paid total_paid_or_authorized_of add_number_values plus_values ◌+ℤ◌ ◌*ℤ◌
counted_calls = refl

completed_calls : completed.calls ≡ firing completed_payment ∷ []
unfolding resume
completed_calls = refl

fired_calls : fired.calls ≡ posting false completed_payment ∷ []
unfolding resume after_firing fire_payment_operations fire_each fire_one
fired_calls = refl

posted_calls : posted_once.calls ≡ []
unfolding resume
posted_calls = refl

abbrev single : (calls : List Call) (c : Call) → calls ≡ c ∷ [] → Alone calls
single calls c h = subst Alone (sym h) (refl, tt)

went_on : (v : Service) (c : Call) → v.calls ≡ c ∷ [] → Move fractions v (went c v)
went_on v c h = resumed false refuse 1_000 500 [] [] c h

AloneMoves-NoRepeats_example : NoRepeats posted_once.books.posted
AloneMoves-NoRepeats_example =
    AloneMoves-NoRepeats fractions quiet posted_once
      (next
        (next
          (next
            (next
              (next idle (begun (updating waiting_payment) (updates "payment" begins_lem))
                (refl, tt))
              (went_on begun_update (updating waiting_payment) refl)
              (single counted.calls (completing completed_payment) counted_calls))
            (went_on counted (completing completed_payment) counted_calls)
            (single completed.calls (firing completed_payment) completed_calls))
          (went_on completed (firing completed_payment) completed_calls)
          (single fired.calls (posting false completed_payment) fired_calls))
        (went_on fired (posting false completed_payment) fired_calls)
        (subst Alone (sym posted_calls) tt))
      refl refl
