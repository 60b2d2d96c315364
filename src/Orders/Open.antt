-- ===== src/Orders/Open.antt =====
-- Whether an order is of an open payment.
use postral_core.Prelude.{
  ◌≡◌, refl, ap, inl, inr, ℕ, suc, String, true, false, Option, none, some, List, [], ◌∷◌, map,
  Result, ok, err, >>=-returned, throw_if, All, All-append, All-update_where, any, find, Bool-cases,
  Field, undefined, null, value, ok-injective,
}
use mathlib.Core.Path.{subst}
use postral_core.Amount.{Amount, BigJs}
use postral_core.Entity.Payment.{Payment, PaymentItem}
use postral_core.Orders.{
  Snapshots, SellerPaymentOrderDto, SellerPaymentOrder, OrderFailure, duplicate_order,
  from_payment_item, group_key, new_group, add_to_group, has_key, group_order, group_orders,
}
use postral_core.Orders.Save.{
  open_or_false, same_seller, has_order_id, is_order_of, update_order, from_dto, insert_order,
  save_order, add_transaction, add_transactions, add_seller_payment_orders,
  generate_seller_payment_orders, saved_or_kept,
}

IsClosed : SellerPaymentOrder → Type 0
IsClosed r = r.open_payment ≡ false

-- A group says nothing about an open payment.
SaysNothing : SellerPaymentOrderDto → Type 0
SaysNothing d = d.open_payment ≡ none

module _ (zero : Amount) (plus : Amount → Amount → Amount) where
  group_order-SaysNothing :
      (groups : List (String × SellerPaymentOrderDto)) (d : SellerPaymentOrderDto)
      → All (λ g. SaysNothing g.1) groups
      → All (λ g. SaysNothing g.1) (group_order zero plus groups d)
  unfolding group_order SaysNothing add_to_group new_group
  group_order-SaysNothing groups d h = elim (Bool-cases (any (has_key (group_key d)) groups)) [
    | inl known ↦ rw known (
        All-update_where (λ g. SaysNothing g.1) (has_key (group_key d)) (add_to_group zero plus d)
          (λ g k. k) groups h)
    | inr new ↦ rw new (
        All-append (λ g. SaysNothing g.1) groups
          (add_to_group zero plus d (group_key d, new_group zero d) ∷ []) h (refl, tt))
  ]

  group_orders-SaysNothing :
      (groups : List (String × SellerPaymentOrderDto)) (ds : List SellerPaymentOrderDto)
      → All (λ g. SaysNothing g.1) groups
      → All SaysNothing (group_orders zero plus groups ds)
  unfolding group_orders
  group_orders-SaysNothing groups [] h = seconds groups h
    where
      seconds :
          (groups : List (String × SellerPaymentOrderDto))
          → All (λ g. SaysNothing g.1) groups
          → All SaysNothing (map (λ g. g.1) groups)
      seconds [] h = tt
      seconds (g ∷ groups) (h, hs) = (h, seconds groups hs)
  group_orders-SaysNothing groups (d ∷ ds) h =
      group_orders-SaysNothing (group_order zero plus groups d) ds
        (group_order-SaysNothing groups d h)

module _ (b : BigJs Amount) where
  from_dto-IsClosed :
      (id : String) (source target : Field) (d : SellerPaymentOrderDto) {r : SellerPaymentOrder}
      → from_dto b id source target d ≡ ok r
      → SaysNothing d
      → IsClosed r
  unfolding from_dto IsClosed SaysNothing
  from_dto-IsClosed id (value s) (value t) d h k =
      subst IsClosed (ok-injective h) (ap open_or_false k)
  from_dto-IsClosed id (value s) undefined d h k = cc
  from_dto-IsClosed id (value s) null d h k = cc
  from_dto-IsClosed id undefined target d h k = cc
  from_dto-IsClosed id null target d h k = cc

  save_order-IsClosed :
      (id : String) (d : SellerPaymentOrderDto) (rows : List SellerPaymentOrder)
      (existing : Option SellerPaymentOrder) {rows' : List SellerPaymentOrder}
      → SaysNothing d
      → All IsClosed rows
      → save_order b id d rows existing ≡ ok rows'
      → All IsClosed rows'
  unfolding save_order insert_order update_order IsClosed
  save_order-IsClosed id d rows (some r) k all h =
      subst (All IsClosed) (ok-injective h)
        (All-update_where IsClosed (has_order_id r.id) (update_order d) (λ r c. c) rows all)
  save_order-IsClosed id d rows none k all h =
      let (r, made, h') =
        >>=-returned (from_dto b id d.source_account_id d.target_account_id d) _ h in
      let (_, _, done) = >>=-returned (throw_if (any (same_seller r) rows) duplicate_order) _ h' in
      subst (All IsClosed) (ok-injective done) (
        All-append IsClosed rows (r ∷ []) all
          (from_dto-IsClosed id d.source_account_id d.target_account_id d made k, tt))

  add_transactions-IsClosed :
      (uuid : ℕ → String) (n : ℕ) (ds : List SellerPaymentOrderDto) (rows : List SellerPaymentOrder)
      → All SaysNothing ds
      → All IsClosed rows
      → All IsClosed (add_transactions b uuid n ds rows).0
  unfolding add_transactions add_transaction
  add_transactions-IsClosed uuid n [] rows k all = all
  add_transactions-IsClosed uuid n (d ∷ ds) rows (k, ks) all =
      after (add_transaction b (uuid n) d rows) refl
        (λ rows'. add_transactions-IsClosed uuid (suc n) ds rows' ks)
    where
      after :
          (call : Result OrderFailure (List SellerPaymentOrder))
          → add_transaction b (uuid n) d rows ≡ call
          → ((rows' : List SellerPaymentOrder)
              → All IsClosed rows'
              → All IsClosed (add_transactions b uuid (suc n) ds rows').0)
          → All IsClosed (saved_or_kept rows call (add_transactions b uuid (suc n) ds)).0
      after (err e) same rest = all
      after (ok rows') same rest =
          rest rows' (save_order-IsClosed (uuid n) d rows (find (is_order_of d) rows) k all same)

  -- The flag of an open payment is lost: if no order is open and the payment is open, then after the
  -- orders of the payment are made, whether that succeeds or fails, still no order is open.
  pub generate_seller_payment_orders-lost :
      (zero : Amount) (plus : Amount → Amount → Amount) (uuid : ℕ → String) (n : ℕ)
      (billing : Option String) (snapshots : PaymentItem → Snapshots) (p : Payment)
      (rows : List SellerPaymentOrder)
      → p.open_payment ≡ true
      → All (λ r. r.open_payment ≡ false) rows
      → All
          (λ r. r.open_payment ≡ false)
          (generate_seller_payment_orders b zero plus uuid n billing snapshots p rows).0
  unfolding generate_seller_payment_orders add_seller_payment_orders IsClosed
  generate_seller_payment_orders-lost zero plus uuid n billing snapshots p rows is_open all =
      add_transactions-IsClosed uuid n
        (group_orders zero plus [] (map (from_payment_item billing snapshots p) p.items)) rows
        (group_orders-SaysNothing zero plus [] (map (from_payment_item billing snapshots p) p.items)
          tt)
        all
