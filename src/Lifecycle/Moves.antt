-- ===== src/Lifecycle/Moves.antt =====
-- The calls of the payment service as they overlap: one begins, goes on, returns or throws while
-- others are under way.
use mathlib.Core.Option.{some-injective}
use postral_core.Prelude.{
  ◌≡◌, ℕ, String, Bool, false, not, Bool-cases, inl, inr, Option, none, some, List, [], ◌∷◌, ◌++◌,
  find, any, ok, >>=-returned, ok-injective, throw_if, throw_if-ok, str_eq, arith, if◌then◌else◌,
}
use mathlib.Core.Path.{subst}
use postral_core.Amount.{Amount, BigJs}
use postral_core.Entity.Status.{PaymentStatus, is_waiting}
use postral_core.Entity.Payment.{Payment}
use postral_core.Entity.Operation.{PaymentChannelOperation}
use postral_core.Channel.Operations.{Answer}
use postral_core.Lifecycle.{
  Books, is_payment, find_payment, is_resolved, may_confirm, already_resolved, not_open,
  not_waiting, not_authorized,
}
use postral_core.Lifecycle.Rows.{find_payment-own}
use postral_core.Lifecycle.Calls.{
  Call, updating, held, read_unresolved, begin_cancel, begin_start, begin_update, begin_confirm,
  resume, Service,
}

-- A call of the service that begins on the books.
pub data Begins (s : Books) (c : Call) : Type 0 where
  cancels : (id : String) → begin_cancel id s ≡ ok c → Begins s c
  starts : (id : String) → begin_start id s ≡ ok c → Begins s c
  updates : (id : String) → begin_update id s ≡ ok (some c) → Begins s c
  confirms : (id seller : String) → begin_confirm id seller s ≡ ok c → Begins s c

abbrev pub to_list : Option Call → List Call
to_list none = []
to_list (some c) = c ∷ []

-- What happens next: a call begins; a call that is under way goes on; one throws; or operations are
-- changed by another service.
pub data Move (b : BigJs Amount) (v : Service) : Service → Type 0 where
  begun : (c : Call) → Begins v.books c → Move b v (record v { calls = c ∷ v.calls })
  resumed :
      (seller_pays : Bool) (fire : Answer) (expire_ms now : ℕ) (before after : List Call) (c : Call)
      → v.calls ≡ before ++ (c ∷ after)
      → Move b v (record {
        books = (resume b seller_pays fire expire_ms now c v.books).0;
        calls =
            before ++ (to_list ((resume b seller_pays fire expire_ms now c v.books).1) ++ after);
      })
  thrown :
      (before after : List Call) (c : Call)
      → v.calls ≡ before ++ (c ∷ after)
      → Move b v (record v { calls = before ++ after })
  operated :
      (operations : List PaymentChannelOperation)
      → Move b v (record v { books = record v.books { operations = operations } })

pub data Moves (b : BigJs Amount) (v : Service) : Service → Type 0 where
  stay : Moves b v v
  more : {v' v'' : Service} → Moves b v v' → Move b v' v'' → Moves b v v''

-- Whether a call is under way for the payment.
abbrev pub holds : String → Call → Bool
holds id c = str_eq (held c).id id

abbrev pub is_held : String → Service → Bool
is_held id v = any (holds id) v.calls

-- A call begins with a payment that is there and not resolved.
abbrev pub Unresolved : Books → Payment → Type 0
Unresolved s p =
    (find (is_payment p.id) s.payments ≡ some p) × (is_resolved p.payment_status ≡ false)

read_unresolved-Unresolved :
    (id : String) (s : Books) {p : Payment} → read_unresolved id s ≡ ok p → Unresolved s p
read_unresolved-Unresolved id s h =
    let (q, read, h0) = >>=-returned (find_payment id s) _ h in
    let (_, open_yet, done) =
      >>=-returned (throw_if (is_resolved q.payment_status) already_resolved) _ h0 in
    subst (Unresolved s) (ok-injective done)
      (find_payment-own id s read, throw_if-ok _ already_resolved open_yet)

waiting_unresolved :
    (status : PaymentStatus) → not (is_waiting status) ≡ false → is_resolved status ≡ false
waiting_unresolved status h = ground arith

updating-Unresolved :
    (s : Books) (p : Payment) {c : Call}
    → find (is_payment p.id) s.payments ≡ some p
    → (if is_resolved p.payment_status then none else some (updating p)) ≡ some c
    → Unresolved s (held c)
updating-Unresolved s p own h = elim (Bool-cases (is_resolved p.payment_status)) [
  | inl done ↦ cc (rw done at h)
  | inr unresolved ↦
      subst (λ c. Unresolved s (held c)) (some-injective _ _ (rw unresolved at h)) (own, unresolved)
]

pub Begins-Unresolved : (s : Books) (c : Call) → Begins s c → Unresolved s (held c)
unfolding begin_cancel begin_start begin_update begin_confirm
Begins-Unresolved s c (cancels id h) =
    let (p, read, done) = >>=-returned (read_unresolved id s) _ h in
    subst (λ c. Unresolved s (held c)) (ok-injective done) (read_unresolved-Unresolved id s read)
Begins-Unresolved s c (starts id h) =
    let (p, read, done) = >>=-returned (read_unresolved id s) _ h in
    subst (λ c. Unresolved s (held c)) (ok-injective done) (read_unresolved-Unresolved id s read)
Begins-Unresolved s c (updates id h) =
    let (p, read, done) = >>=-returned (find_payment id s) _ h in
    updating-Unresolved s p (find_payment-own id s read) (ok-injective done)
Begins-Unresolved s c (confirms id seller h) =
    let (p, read, h0) = >>=-returned (find_payment id s) _ h in
    let (_, _, h1) = >>=-returned (throw_if (not p.open_payment) not_open) _ h0 in
    let (_, waits, h2) =
      >>=-returned (throw_if (not (is_waiting p.payment_status)) not_waiting) _ h1 in
    let (_, _, done) = >>=-returned (throw_if (not (may_confirm seller p)) not_authorized) _ h2 in
    subst (λ c. Unresolved s (held c)) (ok-injective done)
      (
        find_payment-own id s read,
        waiting_unresolved p.payment_status (throw_if-ok _ not_waiting waits),
      )
