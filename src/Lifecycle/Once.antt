-- ===== src/Lifecycle/Once.antt =====
-- The orders and transactions of a payment, when no two calls for it overlap.
use mathlib.Core.Path.{subst}
use postral_core.Prelude.{
  ◌≡◌, sym, ap, ◌∙◌, String, true, false, ◌||◌, Bool-cases, inl, inr, ◌⊎◌, some, List, [], ◌∷◌,
  ◌++◌, find, any, any-append, includes, All, All-append, str_eq→eq, str_eq_comm, arith,
}
use postral_core.Amount.{Amount, BigJs}
use postral_core.Entity.Payment.{Payment}
use postral_core.Lifecycle.{Books, is_payment}
use postral_core.Entity.Operation.{PaymentChannelOperation}
use postral_core.Lifecycle.Calls.{
  Call, cancelling, starting, updating, completing, firing, judging, confirming, posting, saving,
  held, resume, Service,
}
use postral_core.Lifecycle.Moves.{Move, begun, resumed, thrown, operated, holds, to_list}
use postral_core.Lifecycle.Final.{Keeps, resume-Keeps}
use postral_core.Lifecycle.Stages.{Stage, Ready, Posted, Grows, Goes, clash, resume-Goes}
use postral_core.Lifecycle.Alone.{
  NoRepeats, Alone, AloneMoves, idle, next, Begins-Ready, Stage-kept,
}

any-middle :
    (id : String) (before after : List Call) (c : Call)
    → any (holds id) (before ++ (c ∷ after)) ≡ false
    → (holds id c ≡ false) × (any (holds id) (before ++ after) ≡ false)
any-middle id before after c h =
    let whole = any-append (holds id) before (c ∷ after) in
    let rest = any-append (holds id) before after in (ground arith, ground arith)

-- The other calls are for other payments.
Alone-others :
    (before after : List Call) (c : Call)
    → Alone (before ++ (c ∷ after))
    → any (holds (held c).id) (before ++ after) ≡ false
Alone-others [] after c (h, hs) = h
Alone-others (e ∷ before) after c (h, hs) =
    let (apart, _) = any-middle (held e).id before after c h in
    let rest = Alone-others before after c hs in
    rw (str_eq_comm (held e).id (held c).id ∙ apart) rest

All-split :
    (P : Call → Type 0) (before after : List Call) (c : Call)
    → All P (before ++ (c ∷ after))
    → P c × All P (before ++ after)
All-split P [] after c (h, hs) = (h, hs)
All-split P (e ∷ before) after c (h, hs) =
    let (here, rest) = All-split P before after c hs in (here, (h, rest))

All-insert :
    (P : Call → Type 0) (before after middle : List Call)
    → All P (before ++ after)
    → All P middle
    → All P (before ++ (middle ++ after))
All-insert P [] after middle h k = All-append P middle after k h
All-insert P (e ∷ before) after middle (h, hs) k = (h, All-insert P before after middle hs k)

-- What is known of the service.
record IsOrderly (v : Service) : Type 0 where
  pub once : NoRepeats v.books.posted
  pub posted_lem : (id : String) → Posted v.books id
  pub ready : All (Ready v.books) v.calls
  pub alone : Alone v.calls

module _ (s s' : Books) (c : Call) (next_calls : List Call)
    (grows : Grows (held c).id s.posted s'.posted)
    (keeps : (id : String)
      → holds id c ≡ false
      → (p : Payment) → find (is_payment id) s.payments ≡ some p
      → find (is_payment id) s'.payments ≡ some p) where
  Ready-kept : (e : Call) → holds (held c).id e ≡ false → Ready s e → Ready s' e
  unfolding Ready
  Ready-kept e other (q, row, stage) = (
    q,
    keeps (held e).id (str_eq_comm (held c).id (held e).id ∙ other) q row,
    Stage-kept s s' q (held c).id e grows other stage,
  )

  All-Ready-kept :
      (es : List Call) → any (holds (held c).id) es ≡ false → All (Ready s) es → All (Ready s') es
  All-Ready-kept [] other h = tt
  All-Ready-kept (e ∷ es) other (h, hs) =
      (Ready-kept e (ground arith) h, All-Ready-kept es (ground arith) hs)

  Posted-kept : (id : String) → holds id c ≡ false → Posted s id → Posted s' id
  unfolding Posted Grows
  Posted-kept id other old listed =
      let (q, row, done) = old (before grows) in (q, keeps id other q row, done)
    where
      before :
          (s'.posted ≡ s.posted)
            ⊎ ((s'.posted ≡ (held c).id ∷ s.posted) × (includes s.posted (held c).id ≡ false))
          → includes s.posted id ≡ true
      before (inl same) = ap (λ ids. includes ids id) (sym same) ∙ listed
      before (inr (longer, _)) =
          ap (λ t. t || includes s.posted id) (sym other)
          ∙ ap (λ ids. includes ids id) (sym longer)
          ∙ listed

  NoRepeats-kept : NoRepeats s.posted → NoRepeats s'.posted
  unfolding Grows
  NoRepeats-kept once = longer grows
    where
      longer :
          (s'.posted ≡ s.posted)
            ⊎ ((s'.posted ≡ (held c).id ∷ s.posted) × (includes s.posted (held c).id ≡ false))
          → NoRepeats s'.posted
      longer (inl same) = subst NoRepeats (sym same) once
      longer (inr (more, free)) = subst NoRepeats (sym more) (free, once)

Posted-all :
    (s' : Books) (c : Call)
    → Posted s' (held c).id
    → ((id : String) → holds id c ≡ false → Posted s' id)
    → (id : String) → Posted s' id
Posted-all s' c own others id = elim (Bool-cases (holds id c)) [
  | inl here ↦ subst (Posted s') (str_eq→eq (held c).id id here) own
  | inr other ↦ others id other
]

operated_Stage :
    (s : Books) (operations : List PaymentChannelOperation) (q : Payment) (c : Call)
    → Stage s q c
    → Stage (record s { operations = operations }) q c
unfolding Stage
operated_Stage s operations q (cancelling p) h = h
operated_Stage s operations q (starting p) h = h
operated_Stage s operations q (updating p) h = h
operated_Stage s operations q (completing p) h = h
operated_Stage s operations q (firing p) h = h
operated_Stage s operations q (judging p) h = h
operated_Stage s operations q (confirming p) h = h
operated_Stage s operations q (posting closes p) h = h
operated_Stage s operations q (saving p) h = h

operated_Ready :
    (s : Books) (operations : List PaymentChannelOperation) (es : List Call)
    → All (Ready s) es
    → All (Ready (record s { operations = operations })) es
unfolding Ready
operated_Ready s operations [] h = tt
operated_Ready s operations (e ∷ es) ((q, row, stage), hs) =
    ((q, row, operated_Stage s operations q e stage), operated_Ready s operations es hs)

Move-IsOrderly :
    (b : BigJs Amount) (v v' : Service) → Move b v v' → Alone v'.calls → IsOrderly v → IsOrderly v'
unfolding Goes Keeps Posted
Move-IsOrderly b v v' (begun c h) alone o = record {
  once = o.once;
  posted_lem = o.posted_lem;
  ready = (Begins-Ready v.books c h (o.posted_lem (held c).id), o.ready);
  alone = alone;
}
Move-IsOrderly b v v' (resumed seller_pays fire expire_ms now before after c at_call) alone o =
    let r = resume b seller_pays fire expire_ms now c v.books in
    let (here, rest) =
      All-split (Ready v.books) before after c (subst (All (Ready v.books)) at_call o.ready) in
    let others = Alone-others before after c (subst Alone at_call o.alone) in
    let (own, grows, after_it) =
      resume-Goes b seller_pays fire expire_ms now c v.books here (o.posted_lem (held c).id) in
    let keeps : (id : String)
        → holds id c ≡ false
        → (p : Payment) → find (is_payment id) v.books.payments ≡ some p
        → find (is_payment id) r.0.payments ≡ some p =
      λ id other. (resume-Keeps b seller_pays fire expire_ms now id c v.books other).1 in
    record {
      once = NoRepeats-kept v.books r.0 c [] grows keeps o.once;
      posted_lem =
          Posted-all r.0 c own
            (λ id other. Posted-kept v.books r.0 c [] grows keeps id other (o.posted_lem id));
      ready =
          All-insert (Ready r.0) before after (to_list r.1)
            (All-Ready-kept v.books r.0 c [] grows keeps (before ++ after) others rest) after_it;
      alone = alone;
    }
Move-IsOrderly b v v' (thrown before after c at_call) alone o = record {
  once = o.once;
  posted_lem = o.posted_lem;
  ready =
      (All-split (Ready v.books) before after c (subst (All (Ready v.books)) at_call o.ready)).1;
  alone = alone;
}
Move-IsOrderly b v v' (operated operations) alone o = record {
  once = o.once;
  posted_lem = o.posted_lem;
  ready = operated_Ready v.books operations v.calls o.ready;
  alone = alone;
}

-- If, to begin with, no call is under way and no orders and transactions were made, then, however the
-- calls begin, go on and throw, and operations change, as long as no two calls for one payment are
-- under way at a time, those of each payment are made at most once.
pub AloneMoves-NoRepeats :
    (b : BigJs Amount) (v v' : Service)
    → AloneMoves b v v'
    → v.calls ≡ []
    → v.books.posted ≡ []
    → NoRepeats v'.books.posted
unfolding Posted
AloneMoves-NoRepeats b v v' moves quiet start = (orderly v' moves).once
  where
    orderly : (v' : Service) → AloneMoves b v v' → IsOrderly v'
    orderly v' idle = record {
      once = subst NoRepeats (sym start) tt;
      posted_lem = none_posted;
      ready = subst (All (Ready v.books)) (sym quiet) tt;
      alone = subst Alone (sym quiet) tt;
    }
      where
        none_posted : (id : String) → Posted v.books id
        none_posted id listed =
            clash (includes v.books.posted id) listed (ap (λ ids. includes ids id) start)
    orderly v'' (next {v'} rest move alone) = Move-IsOrderly b v' v'' move alone (orderly v' rest)
