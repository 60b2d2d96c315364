-- ===== src/Refund/Reservation/Counts.antt =====
-- The quantities of one payment item in requests, by their status.
use postral_core.Prelude.{
  String, ◌≡◌, refl, sym, ap, ◌∙◌, Bool, false, some, List, [], ◌∷◌, ◌++◌, find, update_where,
  str_eq, str_eq→eq, str_eq_refl, str_eq_comm, pos, pos_part, neg_part, ◌+ℤ◌, int_laws,
  if◌then◌else◌, Bool-cases, inl, inr,
}
use mathlib.Core.Option.{some-injective}
use mathlib.Core.Path.{subst}
use postral_core.Amount.{Amount}
use postral_core.Entity.Status.{RefundRequestStatus, is_pending, is_approved}
use postral_core.Entity.Refund.{RefundRequest, RefundRequestItem}
use postral_core.Refund.Store.{has_request_id}

-- The quantity of the payment item `id` in the items of one request.
abbrev pub count_in : String → List RefundRequestItem → Amount
count_in id [] = pos 0
count_in id (c ∷ cs) =
    if str_eq c.payment_item_id id then c.refund_count +ℤ count_in id cs else count_in id cs

-- What one request holds of item `id` of payment `p`, whatever its status.
unfoldable pub part : String → String → RefundRequest → Amount
part p id r = if str_eq r.payment_id p then count_in id r.items else pos 0

-- What it holds if its status passes.
unfoldable pub share : (RefundRequestStatus → Bool) → String → String → RefundRequest → Amount
share test p id r = if test r.status then part p id r else pos 0

abbrev pub held : (RefundRequestStatus → Bool) → String → String → List RefundRequest → Amount
held test p id [] = pos 0
held test p id (r ∷ rs) = share test p id r +ℤ held test p id rs

pub part-own :
    (p id : String) (r : RefundRequest) → r.payment_id ≡ p → part p id r ≡ count_in id r.items
unfolding part
part-own p id r h = rw (ap (λ k. str_eq k p) h ∙ str_eq_refl p)

pub part-other :
    (p id : String) (r : RefundRequest) → str_eq r.payment_id p ≡ false → part p id r ≡ pos 0
unfolding part
part-other p id r h = rw h

-- No two requests have one ID.
abbrev pub IsFresh : String → List RefundRequest → Type 0
IsFresh id [] = Unit
IsFresh id (r ∷ rs) = (str_eq r.id id ≡ false) × IsFresh id rs

abbrev pub HasUniqueIds : List RefundRequest → Type 0
HasUniqueIds [] = Unit
HasUniqueIds (r ∷ rs) = IsFresh r.id rs × HasUniqueIds rs

pub held-append :
    (test : RefundRequestStatus → Bool) (p id : String) (rs qs : List RefundRequest)
    → held test p id (rs ++ qs) ≡ held test p id rs +ℤ held test p id qs
held-append test p id [] qs = omega int_laws
held-append test p id (r ∷ rs) qs =
    ap (λ n. share test p id r +ℤ n) (held-append test p id rs qs) ∙ omega int_laws

module _ (id : String) (f : RefundRequest → RefundRequest)
    (keeps : (r : RefundRequest) → (f r).id ≡ r.id) where
  IsFresh-update :
      (k : String) (rs : List RefundRequest)
      → IsFresh k rs
      → IsFresh k (update_where (has_request_id id) f rs)
  IsFresh-update k [] h = tt
  IsFresh-update k (r ∷ rs) (h, hs) = (ap (λ j. str_eq j k) (kept r) ∙ h, IsFresh-update k rs hs)
    where
      kept : (r : RefundRequest) → (if has_request_id id r then f r else r).id ≡ r.id
      kept r = elim (Bool-cases (has_request_id id r)) [
        | inl hit ↦ rw hit (keeps r)
        | inr miss ↦ rw miss
      ]

  pub HasUniqueIds-update :
      (rs : List RefundRequest)
      → HasUniqueIds rs
      → HasUniqueIds (update_where (has_request_id id) f rs)
  HasUniqueIds-update [] h = tt
  HasUniqueIds-update (r ∷ rs) (h, hs) = elim (Bool-cases (has_request_id id r)) [
    | inl hit ↦ rw hit (
      subst (λ k. IsFresh k (update_where (has_request_id id) f rs)) (sym (keeps r))
          (IsFresh-update r.id rs h),
      HasUniqueIds-update rs hs,
    )
    | inr miss ↦ rw miss (IsFresh-update r.id rs h, HasUniqueIds-update rs hs)
  ]

-- An update of the one request with the ID, which stands in the list as `r`.
module _ (id : String) (f : RefundRequest → RefundRequest) (test : RefundRequestStatus → Bool)
    (p item : String) where
  held-update_fresh :
      (rs : List RefundRequest)
      → IsFresh id rs
      → held test p item (update_where (has_request_id id) f rs) ≡ held test p item rs
  held-update_fresh [] h = refl
  held-update_fresh (r ∷ rs) (h, hs) =
      rw h (ap (λ n. share test p item r +ℤ n) (held-update_fresh rs hs))

  pub held-update :
      (rs : List RefundRequest) (r : RefundRequest)
      → HasUniqueIds rs
      → find (has_request_id id) rs ≡ some r
      → held test p item (update_where (has_request_id id) f rs) +ℤ share test p item r
        ≡ held test p item rs +ℤ share test p item (f r)
  held-update [] r u h = cc
  held-update (q ∷ rs) r (u, us) h = elim (Bool-cases (has_request_id id q)) [
    | inl same ↦
        let found : q ≡ r = some-injective _ _ (rw same at h) in
        let fresh : IsFresh id rs = subst (λ i. IsFresh i rs) (str_eq→eq q.id id same) u in
        rw (same, held-update_fresh rs fresh, found) (omega int_laws)
    | inr other ↦
        let rest = held-update rs r us (rw other at h) in
        rw other (omega (int_laws, ap pos_part rest, ap neg_part rest))
  ]

-- One more pending request holds its part of the pending quantities, and nothing else.
pub held-insert :
    (p item : String) (rs : List RefundRequest) (r : RefundRequest)
    → r.status ≡ RefundRequestStatus.pending
    → (held is_approved p item (rs ++ (r ∷ [])) ≡ held is_approved p item rs)
      × (held is_pending p item (rs ++ (r ∷ [])) ≡ held is_pending p item rs +ℤ part p item r)
unfolding share
held-insert p item rs r pending =
    let none_approved : share is_approved p item r ≡ pos 0 = rw (ap is_approved pending) in
    let all_pending : share is_pending p item r ≡ part p item r = rw (ap is_pending pending) in
    (
      held-append is_approved p item rs (r ∷ [])
          ∙ ap (λ n. held is_approved p item rs +ℤ (n +ℤ pos 0)) none_approved
          ∙ omega int_laws,
      held-append is_pending p item rs (r ∷ [])
          ∙ ap (λ n. held is_pending p item rs +ℤ (n +ℤ pos 0)) all_pending
          ∙ omega int_laws,
    )

pub IsFresh-insert :
    (k : String) (rs : List RefundRequest) (r : RefundRequest)
    → IsFresh k rs
    → str_eq r.id k ≡ false
    → IsFresh k (rs ++ (r ∷ []))
IsFresh-insert k [] r h new = (new, tt)
IsFresh-insert k (q ∷ rs) r (h, hs) new = (h, IsFresh-insert k rs r hs new)

pub HasUniqueIds-insert :
    (rs : List RefundRequest) (r : RefundRequest)
    → HasUniqueIds rs
    → IsFresh r.id rs
    → HasUniqueIds (rs ++ (r ∷ []))
HasUniqueIds-insert [] r u new = (tt, tt)
HasUniqueIds-insert (q ∷ rs) r (h, hs) (new, news) =
    (IsFresh-insert q.id rs r h (str_eq_comm r.id q.id ∙ new), HasUniqueIds-insert rs r hs news)
