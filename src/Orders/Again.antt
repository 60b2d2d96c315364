-- ===== src/Orders/Again.antt =====
-- Orders that are saved a second time keep their amounts.
use postral_core.Prelude.{
  ◌≡◌, refl, sym, ap, ◌∙◌, ℕ, suc, String, Bool, true, false, ◌&&◌, ◌||◌, some, List, [], ◌∷◌, map,
  Result, ok, err, >>=-returned, throw_if, All, any, any-append, any-update_where, map-update_where,
  any→find, ||-true, find→any, update_where, find, str_eq, str_eq_refl, where_text, Field,
  undefined, null, value, ok-injective, Option, none,
}
use mathlib.Core.Path.{subst}
use postral_core.Amount.{Amount, BigJs}
use postral_core.Orders.{
  SellerPaymentOrderType, same_order_type, SellerPaymentOrderDto, SellerPaymentOrder, OrderFailure,
  duplicate_order, group_orders,
}
use postral_core.Orders.Save.{
  is_order_of, same_seller, has_order_id, update_order, from_dto, insert_order, save_order,
  add_transaction, add_transactions, add_seller_payment_orders, saved_or_kept,
}

-- What an order is worth, and its ID.
abbrev pub worth : SellerPaymentOrder → String × Amount × Amount × Amount
worth r = (r.id, r.amount, r.tax_amount, r.untaxed_amount)

same_order_type_refl : (t : SellerPaymentOrderType) → same_order_type t t ≡ true
same_order_type_refl SellerPaymentOrderType.credit_to_seller = refl
same_order_type_refl SellerPaymentOrderType.debit_from_seller = refl

module _ (b : BigJs Amount) where
  is_order_of-from_dto :
      (id : String) (source target : Field) (d : SellerPaymentOrderDto) {r : SellerPaymentOrder}
      → from_dto b id source target d ≡ ok r
      → (where_text source r.source_account_id
          && where_text target r.target_account_id
          && same_order_type r.seller_order_type d.transaction_type
          && str_eq r.payment_id d.payment_id
          && str_eq r.currency d.currency)
        ≡ true
  unfolding from_dto
  is_order_of-from_dto id (value s) (value t) d h =
      subst
        (λ (r : SellerPaymentOrder).
          (str_eq r.source_account_id s
            && str_eq r.target_account_id t
            && same_order_type r.seller_order_type d.transaction_type
            && str_eq r.payment_id d.payment_id
            && str_eq r.currency d.currency)
          ≡ true)
        (ok-injective h)
        (rw (
          str_eq_refl s,
          str_eq_refl t,
          same_order_type_refl d.transaction_type,
          str_eq_refl d.payment_id,
          str_eq_refl d.currency,
        ))
  is_order_of-from_dto id (value s) undefined d h = cc
  is_order_of-from_dto id (value s) null d h = cc
  is_order_of-from_dto id undefined target d h = cc
  is_order_of-from_dto id null target d h = cc

  -- A search that finds an order still does after another is saved.
  any-save_order :
      (look : SellerPaymentOrder → Bool) (id : String) (d : SellerPaymentOrderDto)
      (rows : List SellerPaymentOrder) (existing : Option SellerPaymentOrder)
      {rows' : List SellerPaymentOrder}
      → ((e : SellerPaymentOrderDto) (r : SellerPaymentOrder) → look (update_order e r) ≡ look r)
      → save_order b id d rows existing ≡ ok rows'
      → any look rows ≡ true
      → any look rows' ≡ true
  unfolding save_order insert_order
  any-save_order look id d rows (some r) keeps h k =
      ap (any look) (sym (ok-injective h))
      ∙ any-update_where look (has_order_id r.id) (update_order d) (keeps d) rows
      ∙ k
  any-save_order look id d rows none keeps h k =
      let (r, made, h') =
        >>=-returned (from_dto b id d.source_account_id d.target_account_id d) _ h in
      let (_, _, done) = >>=-returned (throw_if (any (same_seller r) rows) duplicate_order) _ h' in
      ap (any look) (sym (ok-injective done)) ∙ any-append look rows (r ∷ []) ∙ rw k

  saved-found :
      (id : String) (d : SellerPaymentOrderDto) (rows : List SellerPaymentOrder)
      (existing : Option SellerPaymentOrder) {rows' : List SellerPaymentOrder}
      → find (is_order_of d) rows ≡ existing
      → save_order b id d rows existing ≡ ok rows'
      → any (is_order_of d) rows' ≡ true
  unfolding save_order insert_order update_order
  saved-found id d rows (some r) found h =
      any-save_order (is_order_of d) id d rows (some r) (λ e r. refl) h
        (find→any (is_order_of d) rows found)
  saved-found id d rows none found h =
      let (r, made, h') =
        >>=-returned (from_dto b id d.source_account_id d.target_account_id d) _ h in
      let (_, _, done) = >>=-returned (throw_if (any (same_seller r) rows) duplicate_order) _ h' in
      ap (any (is_order_of d)) (sym (ok-injective done))
      ∙ any-append (is_order_of d) rows (r ∷ [])
      ∙ ap (λ t. any (is_order_of d) rows || (t || false))
          (is_order_of-from_dto id d.source_account_id d.target_account_id d made)
      ∙ ||-true (any (is_order_of d) rows)

  any-add_transactions :
      (look : SellerPaymentOrder → Bool) (uuid : ℕ → String) (n : ℕ)
      (ds : List SellerPaymentOrderDto) (rows : List SellerPaymentOrder)
      → ((e : SellerPaymentOrderDto) (r : SellerPaymentOrder) → look (update_order e r) ≡ look r)
      → any look rows ≡ true
      → any look (add_transactions b uuid n ds rows).0 ≡ true
  unfolding add_transactions add_transaction
  any-add_transactions look uuid n [] rows keeps h = h
  any-add_transactions look uuid n (d ∷ ds) rows keeps h =
      after (add_transaction b (uuid n) d rows) refl
        (λ rows'. any-add_transactions look uuid (suc n) ds rows' keeps)
    where
      after :
          (call : Result OrderFailure (List SellerPaymentOrder))
          → add_transaction b (uuid n) d rows ≡ call
          → ((rows' : List SellerPaymentOrder)
              → any look rows' ≡ true
              → any look (add_transactions b uuid (suc n) ds rows').0 ≡ true)
          → any look (saved_or_kept rows call (add_transactions b uuid (suc n) ds)).0 ≡ true
      after (err e) same rest = h
      after (ok rows') same rest =
          rest rows' (any-save_order look (uuid n) d rows (find (is_order_of d) rows) keeps same h)

  -- After a pass that succeeds, each of its orders is found.
  add_transactions-found :
      (uuid : ℕ → String) (n : ℕ) (ds : List SellerPaymentOrderDto) (rows : List SellerPaymentOrder)
      → (add_transactions b uuid n ds rows).1 ≡ ok tt
      → All (λ d. any (is_order_of d) (add_transactions b uuid n ds rows).0 ≡ true) ds
  unfolding add_transactions add_transaction update_order
  add_transactions-found uuid n [] rows h = tt
  add_transactions-found uuid n (d ∷ ds) rows h =
      after (add_transaction b (uuid n) d rows) refl h (add_transactions-found uuid (suc n) ds)
    where
      after :
          (call : Result OrderFailure (List SellerPaymentOrder))
          → add_transaction b (uuid n) d rows ≡ call
          → (saved_or_kept rows call (add_transactions b uuid (suc n) ds)).1 ≡ ok tt
          → ((rows' : List SellerPaymentOrder)
              → (add_transactions b uuid (suc n) ds rows').1 ≡ ok tt
              → All
                  (λ d. any (is_order_of d) (add_transactions b uuid (suc n) ds rows').0 ≡ true)
                  ds)
          → All
              (λ e.
                any (is_order_of e) (saved_or_kept rows call (add_transactions b uuid (suc n) ds)).0
                ≡ true)
              (d ∷ ds)
      after (err e) same h' rest = cc
      after (ok rows') same h' rest = (
        any-add_transactions (is_order_of d) uuid (suc n) ds rows' (λ e r. refl)
            (saved-found (uuid n) d rows (find (is_order_of d) rows) refl same),
        rest rows' h',
      )

  -- Orders that are all found are updated.
  add_transactions-keeps :
      (uuid : ℕ → String) (n : ℕ) (ds : List SellerPaymentOrderDto) (rows : List SellerPaymentOrder)
      → All (λ d. any (is_order_of d) rows ≡ true) ds
      → ((add_transactions b uuid n ds rows).1 ≡ ok tt)
        × (map worth (add_transactions b uuid n ds rows).0 ≡ map worth rows)
  unfolding add_transactions add_transaction save_order update_order
  add_transactions-keeps uuid n [] rows h = (refl, refl)
  add_transactions-keeps uuid n (d ∷ ds) rows (h, hs) =
      let (r, found) = any→find (is_order_of d) rows h in
      let (done, same) =
        add_transactions-keeps uuid (suc n) ds
          (update_where (has_order_id r.id) (update_order d) rows) (still r ds hs) in
      rw found
        (done, same ∙ map-update_where worth (has_order_id r.id) (update_order d) (λ r. refl) rows)
    where
      still :
          (r : SellerPaymentOrder) (es : List SellerPaymentOrderDto)
          → All (λ e. any (is_order_of e) rows ≡ true) es
          → All
              (λ e.
                any (is_order_of e) (update_where (has_order_id r.id) (update_order d) rows) ≡ true)
              es
      still r [] k = tt
      still r (e ∷ es) (k, ks) = (
        any-update_where (is_order_of e) (has_order_id r.id) (update_order d) (λ r. refl) rows ∙ k,
        still r es ks,
      )

  -- If orders were saved, then saving the same ones again succeeds, adds no order, and leaves the
  -- ID and the amounts of every order as they were.
  pub add_seller_payment_orders-again :
      (zero : Amount) (plus : Amount → Amount → Amount) (uuid uuid' : ℕ → String) (n n' : ℕ)
      (ds : List SellerPaymentOrderDto) (rows : List SellerPaymentOrder)
      → (add_seller_payment_orders b zero plus uuid n ds rows).1 ≡ ok tt
      → ((add_seller_payment_orders b zero plus uuid' n' ds
            (add_seller_payment_orders b zero plus uuid n ds rows).0).1
          ≡ ok tt)
        × (map worth
              (add_seller_payment_orders b zero plus uuid' n' ds
                (add_seller_payment_orders b zero plus uuid n ds rows).0).0
            ≡ map worth (add_seller_payment_orders b zero plus uuid n ds rows).0)
  unfolding add_seller_payment_orders
  add_seller_payment_orders-again zero plus uuid uuid' n n' ds rows h =
      add_transactions-keeps uuid' n' (group_orders zero plus [] ds)
        (add_transactions b uuid n (group_orders zero plus [] ds) rows).0
        (add_transactions-found uuid n (group_orders zero plus [] ds) rows h)
