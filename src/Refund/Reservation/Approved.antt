-- ===== src/Refund/Reservation/Approved.antt =====
-- What requests hold, before and after one of them is approved.
use postral_core.Prelude.{
  String, ◌≡◌, refl, ap, true, false, Option, some, List, find, update_where, pos, pos_part,
  neg_part, ◌+ℤ◌, arith, int_laws, eq_of_parts,
}
use postral_core.Entity.Status.{RefundRequestStatus, is_pending, is_approved}
use postral_core.Entity.Refund.{RefundRequest}
use postral_core.Refund.Store.{has_request_id}
use postral_core.Refund.Reservation.Counts.{held, share, part, HasUniqueIds, held-update}

-- `resolveRefundRequest` as a change of the row.
abbrev pub resolved : RefundRequestStatus → String → Option String → RefundRequest → RefundRequest
resolved status actor text r = record r {
  status = status;
  resolved_by_account_id = some actor;
  resolution_note = text;
}

pub not_approved :
    (status : RefundRequestStatus) → is_pending status ≡ true → is_approved status ≡ false
not_approved status h = ground arith

module _ (p item : String) (rs : List RefundRequest) (r : RefundRequest) (actor : String)
    (text : Option String) where
  shares :
      is_pending r.status ≡ true
      → let r' = resolved RefundRequestStatus.approved actor text r in
        (share is_approved p item r ≡ pos 0)
        × (share is_approved p item r' ≡ part p item r)
        × (share is_pending p item r ≡ part p item r)
        × (share is_pending p item r' ≡ pos 0)
  unfolding share part
  shares pending = (rw (not_approved r.status pending), refl, rw pending, refl)

  -- An approval moves what the request holds from the pending to the approved quantities.
  pub held-approved :
      HasUniqueIds rs
      → find (has_request_id r.id) rs ≡ some r
      → is_pending r.status ≡ true
      → let rs' =
          update_where
            (has_request_id r.id)
            (resolved RefundRequestStatus.approved actor text)
            rs in
        (held is_approved p item rs' ≡ held is_approved p item rs +ℤ part p item r)
        × (held is_pending p item rs' +ℤ part p item r ≡ held is_pending p item rs)
  held-approved unique found pending =
      let f = resolved RefundRequestStatus.approved actor text in
      let approvals = held-update r.id f is_approved p item rs r unique found in
      let pendings = held-update r.id f is_pending p item rs r unique found in
      let lost = shares pending in
      (
        eq_of_parts _ _ (
            omega (
              int_laws,
              ap pos_part approvals,
              ap neg_part approvals,
              ap pos_part lost.0,
              ap neg_part lost.0,
              ap pos_part lost.1,
              ap neg_part lost.1,
            )),
        eq_of_parts _ _ (
            omega (
              int_laws,
              ap pos_part pendings,
              ap neg_part pendings,
              ap pos_part lost.2,
              ap neg_part lost.2,
              ap pos_part lost.3,
              ap neg_part lost.3,
            )),
      )
