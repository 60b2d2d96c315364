-- ===== src/Lifecycle/Alone.antt =====
-- Calls for one payment that do not overlap, and what they know after another call went on.
use mathlib.Core.Option.{some-injective}
use postral_core.Prelude.{
  ◌≡◌, sym, ap, ◌∙◌, String, Bool, true, false, not, ◌||◌, Bool-cases, inl, inr, none, some, List,
  [], ◌∷◌, any, includes, >>=-returned, ok-injective, throw_if, str_eq, str_eq_comm, if◌then◌else◌,
}
use postral_core.Amount.{Amount, BigJs}
use postral_core.Entity.Status.{is_waiting}
use postral_core.Entity.Payment.{Payment}
use postral_core.Lifecycle.{
  Books, find_payment, is_resolved, may_confirm, not_open, not_waiting, not_authorized,
}
use postral_core.Lifecycle.Calls.{
  Call, cancelling, starting, updating, completing, firing, judging, confirming, posting, saving,
  held, read_unresolved, begin_cancel, begin_start, begin_update, begin_confirm, Service,
}
use postral_core.Lifecycle.Moves.{
  Begins, cancels, starts, updates, confirms, Move, holds, Begins-Unresolved,
}
use postral_core.Lifecycle.Stages.{Unposted, Stage, Ready, Posted, Grows, clash}

abbrev pub NoRepeats : List String → Type 0
NoRepeats [] = Unit
NoRepeats (id ∷ ids) = (includes ids id ≡ false) × NoRepeats ids

-- No two of the calls are for one payment.
abbrev pub Alone : List Call → Type 0
Alone [] = Unit
Alone (c ∷ cs) = (any (holds (held c).id) cs ≡ false) × Alone cs

-- What happens, as long as no two calls for one payment are under way.
pub data AloneMoves (b : BigJs Amount) (v : Service) : Service → Type 0 where
  idle : AloneMoves b v v
  next :
      {v' v'' : Service} → AloneMoves b v v' → Move b v' v'' → Alone v''.calls → AloneMoves b v v''

abbrev is_early : Call → Bool
is_early (cancelling p) = true
is_early (starting p) = true
is_early (updating p) = true
is_early (confirming p) = true
is_early (completing p) = false
is_early (firing p) = false
is_early (judging p) = false
is_early (posting closes p) = false
is_early (saving p) = false

updating-early :
    (done : Bool) (p : Payment) {c : Call}
    → (if done then none else some (updating p)) ≡ some c
    → is_early c ≡ true
updating-early true p h = cc
updating-early false p h = ap is_early (sym (some-injective _ _ h))

Begins-early : (s : Books) (c : Call) → Begins s c → is_early c ≡ true
unfolding begin_cancel begin_start begin_update begin_confirm
Begins-early s c (cancels id h) =
    let (p, _, done) = >>=-returned (read_unresolved id s) _ h in
    ap is_early (sym (ok-injective done))
Begins-early s c (starts id h) =
    let (p, _, done) = >>=-returned (read_unresolved id s) _ h in
    ap is_early (sym (ok-injective done))
Begins-early s c (updates id h) =
    let (p, _, done) = >>=-returned (find_payment id s) _ h in
    updating-early (is_resolved p.payment_status) p (ok-injective done)
Begins-early s c (confirms id seller h) =
    let (p, _, h0) = >>=-returned (find_payment id s) _ h in
    let (_, _, h1) = >>=-returned (throw_if (not p.open_payment) not_open) _ h0 in
    let (_, _, h2) = >>=-returned (throw_if (not (is_waiting p.payment_status)) not_waiting) _ h1 in
    let (_, _, done) = >>=-returned (throw_if (not (may_confirm seller p)) not_authorized) _ h2 in
    ap is_early (sym (ok-injective done))

early-Stage :
    (s : Books) (q : Payment) (c : Call) → is_early c ≡ true → Unposted s (held c) → Stage s q c
unfolding Stage
early-Stage s q (cancelling p) h free = free
early-Stage s q (starting p) h free = free
early-Stage s q (updating p) h free = free
early-Stage s q (confirming p) h free = free
early-Stage s q (completing p) h free = cc
early-Stage s q (firing p) h free = cc
early-Stage s q (judging p) h free = free
early-Stage s q (posting closes p) h free = cc
early-Stage s q (saving p) h free = inl free

pub Begins-Ready : (s : Books) (c : Call) → Begins s c → Posted s (held c).id → Ready s c
unfolding Ready Posted
Begins-Ready s c h old =
    let (there, unresolved) = Begins-Unresolved s c h in
    let free : includes s.posted (held c).id ≡ false =
      elim (Bool-cases (includes s.posted (held c).id)) [
        | inl listed ↦
            let (q, row, done) = old listed in
            let same = some-injective _ _ (sym row ∙ there) in
            clash (is_resolved q.payment_status) done
              (ap (λ (p : Payment). is_resolved p.payment_status) same ∙ unresolved)
        | inr free ↦ free
      ] in
    (held c, there, early-Stage s (held c) c (Begins-early s c h) free)

Unposted-kept :
    (s s' : Books) (id : String) (p : Payment)
    → Grows id s.posted s'.posted
    → str_eq p.id id ≡ false
    → Unposted s p
    → Unposted s' p
unfolding Grows
Unposted-kept s s' id p (inl same) other free = ap (λ ids. includes ids p.id) same ∙ free
Unposted-kept s s' id p (inr (more, _)) other free =
    ap (λ ids. includes ids p.id) more
    ∙ ap (λ t. t || includes s.posted p.id) (str_eq_comm id p.id ∙ other)
    ∙ free

pub Stage-kept :
    (s s' : Books) (q : Payment) (id : String) (c : Call)
    → Grows id s.posted s'.posted
    → holds id c ≡ false
    → Stage s q c
    → Stage s' q c
unfolding Stage
Stage-kept s s' q id (cancelling p) g other free = Unposted-kept s s' id p g other free
Stage-kept s s' q id (starting p) g other free = Unposted-kept s s' id p g other free
Stage-kept s s' q id (updating p) g other free = Unposted-kept s s' id p g other free
Stage-kept s s' q id (judging p) g other free = Unposted-kept s s' id p g other free
Stage-kept s s' q id (confirming p) g other free = Unposted-kept s s' id p g other free
Stage-kept s s' q id (completing p) g other (free, done) =
    (Unposted-kept s s' id p g other free, done)
Stage-kept s s' q id (firing p) g other (free, done, row) =
    (Unposted-kept s s' id p g other free, done, row)
Stage-kept s s' q id (posting closes p) g other (free, done, row) =
    (Unposted-kept s s' id p g other free, done, row)
Stage-kept s s' q id (saving p) g other (inl free) = inl (Unposted-kept s s' id p g other free)
Stage-kept s s' q id (saving p) g other (inr done) = inr done
