-- ===== src/Lifecycle/Stages.antt =====
-- Where a call is between the read of its payment and the end, and what its next part does.
use postral_core.Prelude.{
  ◌≡◌, refl, ap, ◌∙◌, ℕ, String, Bool, true, false, Bool-cases, inl, inr, ◌⊎◌, Option, some, List,
  [], ◌∷◌, find, includes, All, Result, ok, err, if◌then◌else◌, arith,
}
use postral_core.Amount.{Amount, BigJs}
use postral_core.Entity.Status.{PaymentStatus}
use postral_core.Entity.Payment.{Payment}
use postral_core.Entity.Operation.{PaymentChannelOperation}
use postral_core.Channel.Operations.{Answer, OperationFailure, has_failed_payment_operations}
use postral_core.Lifecycle.{Books, is_payment, save, is_resolved, is_expired, after_failure}
use postral_core.Lifecycle.Rows.{find-saved_own}
use postral_core.Lifecycle.Calls.{
  Call, cancelling, starting, updating, completing, firing, judging, confirming, posting, saving,
  held, after_posting, judge, after_firing, resume,
}
use postral_core.Lifecycle.Moves.{to_list}

-- A call is at a point where the orders and transactions of its payment may be.
abbrev pub Unposted : Books → Payment → Type 0
Unposted s p = includes s.posted p.id ≡ false

-- What a call that holds a payment knows of the row with its ID.
unfoldable pub Stage : Books → Payment → Call → Type 0
Stage s q (saving p) = (Unposted s p) ⊎ (is_resolved p.payment_status ≡ true)
Stage s q (completing p) = Unposted s p × (is_resolved p.payment_status ≡ true)
Stage s q (firing p) =
    Unposted s p × (is_resolved p.payment_status ≡ true) × (is_resolved q.payment_status ≡ true)
Stage s q (posting closes p) =
    Unposted s p × (is_resolved p.payment_status ≡ true) × (is_resolved q.payment_status ≡ true)
Stage s q (cancelling p) = Unposted s p
Stage s q (starting p) = Unposted s p
Stage s q (updating p) = Unposted s p
Stage s q (judging p) = Unposted s p
Stage s q (confirming p) = Unposted s p

unfoldable pub Ready : Books → Call → Type 0
Ready s c = (q : Payment) × (find (is_payment (held c).id) s.payments ≡ some q) × Stage s q c

-- A payment whose orders and transactions were made is resolved.
unfoldable pub Posted : Books → String → Type 0
Posted s id =
    includes s.posted id ≡ true
    → (q : Payment) × (find (is_payment id) s.payments ≡ some q)
      × (is_resolved q.payment_status ≡ true)

-- A list grows by one ID that was not on it, if it changes.
unfoldable pub Grows : String → List String → List String → Type 0
Grows id old new = (new ≡ old) ⊎ ((new ≡ id ∷ old) × (includes old id ≡ false))

unfoldable pub Goes : Books → Call → Books × Option Call → Type 0
Goes s c r =
    Posted r.0 (held c).id × Grows (held c).id s.posted r.0.posted × All (Ready r.0) (to_list r.1)

pub clash : {A : Type 0} (b : Bool) → b ≡ true → b ≡ false → A
clash b same apart = cc

after_failure-id : (p : Payment) (s : Books) → (after_failure p s).id ≡ p.id
unfolding after_failure
after_failure-id p s = ground arith

module _ (b : BigJs Amount) (seller_pays : Bool) (fire : Answer) (expire_ms now : ℕ) where
  after_firing-Goes :
      (p q : Payment) (s : Books)
      (fired : List PaymentChannelOperation × Result OperationFailure (Unit {0}))
      → find (is_payment p.id) s.payments ≡ some q
      → Stage s q (firing p)
      → Posted s p.id
      → Goes s (firing p) (after_firing p s fired)
  unfolding Goes Grows Ready Stage Posted after_firing
  after_firing-Goes p q s (operations, err e) there stage old = (old, inl refl, tt)
  after_firing-Goes p q s (operations, ok _) there stage old =
      (old, inl refl, ((q, there, stage), tt))

  judge-Goes :
      (p q : Payment) (s : Books)
      → find (is_payment p.id) s.payments ≡ some q
      → Unposted s p
      → Posted s p.id
      → Goes s (judging p) (judge expire_ms now p s)
  unfolding Goes Grows Ready Stage Posted judge
  judge-Goes p q s there free old =
      elim (Bool-cases (has_failed_payment_operations p.id s.operations)) [
        | inl failed ↦
            let key = after_failure-id p s in
            rw failed (
              old,
              inl refl,
              (
                (
                  q,
                  ap (λ k. find (is_payment k) s.payments) key ∙ there,
                  inl (ap (includes s.posted) key ∙ free),
                ),
                tt,
              ),
            )
        | inr fine ↦ elim (Bool-cases (is_expired expire_ms now p)) [
          | inl expired ↦ rw (fine, expired) (old, inl refl, ((q, there, inl free), tt))
          | inr early ↦ rw (fine, early) (old, inl refl, ((q, there, inl free), tt))
        ]
      ]

  updating-Goes :
      (paid : Bool) (p q : Payment) (s : Books)
      → find (is_payment p.id) s.payments ≡ some q
      → Unposted s p
      → All (Ready s) (
          (if paid
            then completing (record p { payment_status = PaymentStatus.completed })
            else judging p)
          ∷ [])
  unfolding Ready Stage
  updating-Goes true p q s there free = ((q, there, (free, refl)), tt)
  updating-Goes false p q s there free = ((q, there, free), tt)

  posting-Goes :
      (closes : Bool) (p q : Payment) (s : Books)
      → find (is_payment p.id) s.payments ≡ some q
      → is_resolved p.payment_status ≡ true
      → All (Ready s) (to_list (after_posting closes p))
  unfolding Ready Stage
  posting-Goes true p q s there done = ((q, there, inr done), tt)
  posting-Goes false p q s there done = tt

  saving-Goes :
      (p q : Payment) (s : Books)
      → find (is_payment p.id) s.payments ≡ some q
      → (Unposted s p) ⊎ (is_resolved p.payment_status ≡ true)
      → Posted (save p s) p.id
  unfolding Posted
  saving-Goes p q s there (inl free) listed = clash (includes s.posted p.id) listed free
  saving-Goes p q s there (inr done) listed = (p, find-saved_own p s.payments there, done)

  pub resume-Goes :
      (c : Call) (s : Books)
      → Ready s c
      → Posted s (held c).id
      → Goes s c (resume b seller_pays fire expire_ms now c s)
  unfolding Goes Grows Ready Stage Posted resume
  resume-Goes (cancelling p) s (q, there, free) old = (old, inl refl, ((q, there, inl free), tt))
  resume-Goes (starting p) s (q, there, free) old = (old, inl refl, ((q, there, inl free), tt))
  resume-Goes (updating p) s (q, there, free) old =
      (old, inl refl, updating-Goes _ p q s there free)
  resume-Goes (completing p) s (q, there, (free, done)) old = (
    saving-Goes p q s there (inr done),
    inl refl,
    ((p, find-saved_own p s.payments there, (free, done, done)), tt),
  )
  resume-Goes (firing p) s (q, there, stage) old = after_firing-Goes p q s _ there stage old
  resume-Goes (judging p) s (q, there, free) old = judge-Goes p q s there free old
  resume-Goes (confirming p) s (q, there, free) old =
      let new = record p { payment_status = PaymentStatus.completed } in
      (
        saving-Goes new q s there (inr refl),
        inl refl,
        ((new, find-saved_own new s.payments there, (free, refl, refl)), tt),
      )
  resume-Goes (posting closes p) s (q, there, (free, done, row)) old = (
    (λ h. (q, there, row)),
    inr (refl, free),
    posting-Goes closes p q (record s { posted = p.id ∷ s.posted }) there done,
  )
  resume-Goes (saving p) s (q, there, stage) old = (saving-Goes p q s there stage, inl refl, tt)
