-- ===== src/Order/Totals.antt =====
-- The totals of an order.
use postral_core.Prelude.{
  ◌≡◌, refl, ap, ◌∙◌, String, false, not, some, none, List, [], ◌∷◌, map, Result, ok, err,
  >>=-returned, ok-injective, throw_if, throw_if-ok, or_throw, or_throw-ok, find, any, str_eq, All,
  join, if◌then◌else◌,
}
use mathlib.Core.Path.{subst}
use postral_core.Amount.{
  BigJs, add_number_values, minus_number_values, multiply_number_values,
  calculate_comission_amount_by_percent,
}
use postral_core.Tax.{
  TaxDto, TaxFailure, generate_tax_dto, calculate_tax_amount, calculate_untaxed_price,
}
use postral_core.Order.{
  long_note, identification_missing, item_not_found, seller_not_found, seller_not_commercial,
  tax_not_found, tax_variation_not_found, price_not_found, default_price_not_found,
  division_by_zero, AccountType, OrderedItem, Item, ItemTax, ItemTaxVariation, ItemPrice, Catalogue,
  CalculatedItem, Calculation, is_long, is_unidentified, is_commercial, first_price, or_blank,
  as_order, price_item, calculate_item, calculate_items, calculate_total_amount,
}

as_order-ok : {A : Type 0} (call : Result TaxFailure A) {a : A} → as_order call ≡ ok a → call ≡ ok a
as_order-ok (ok x) h = ap ok (ok-injective h)
as_order-ok (err e) h = cc

is_commercial-eq : (t : AccountType) → not (is_commercial t) ≡ false → t ≡ AccountType.commercial
is_commercial-eq AccountType.commercial h = refl
is_commercial-eq AccountType.individual h = cc

module _ {N : Type 0} (b : BigJs N) where
  -- The sum of amounts, from an amount on and in their order, by `addNumberValues` of two.
  abbrev pub add_each : N → List N → N
  add_each total [] = total
  add_each total (n ∷ ns) = add_each (add_number_values b (total ∷ n ∷ [])) ns

  -- What the fields of an item are to one another: a commercial account sells it, its tax is the
  -- percentage in its amount, what is left is its amount before tax, and the commission is the
  -- percentage of one of the two.
  pub record IsPriced (catalogue : Catalogue N) (i : CalculatedItem N) : Type 0 where
    pub seller_commercial : catalogue.account_type i.seller_account_id ≡ some AccountType.commercial
    pub total_lem : i.total_amount ≡ multiply_number_values b (i.unit_amount ∷ i.quantity ∷ [])
    pub tax_lem : calculate_tax_amount b i.total_amount i.tax_percent ≡ ok i.tax_amount
    pub untaxed_lem : i.un_tax_amount ≡ minus_number_values b i.total_amount (i.tax_amount ∷ [])
    pub commission_lem :
        calculate_comission_amount_by_percent b
          (if catalogue.commissions_from_net then i.un_tax_amount else i.total_amount)
          i.app_comission_percent
        ≡ some i.app_comission_amount

-- What `price_item` makes of an item, but for the account that sells it.
record IsTaxed {N : Type 0} (b : BigJs N) (catalogue : Catalogue N) (seller : String)
    (i : CalculatedItem N) (dto : TaxDto N) : Type 0 where
  pub seller_lem : i.seller_account_id ≡ seller
  pub same_tax : dto.tax_amount ≡ i.tax_amount
  pub total_lem : i.total_amount ≡ multiply_number_values b (i.unit_amount ∷ i.quantity ∷ [])
  pub tax_lem : calculate_tax_amount b i.total_amount i.tax_percent ≡ ok i.tax_amount
  pub untaxed_lem : i.un_tax_amount ≡ minus_number_values b i.total_amount (i.tax_amount ∷ [])
  pub commission_lem :
      calculate_comission_amount_by_percent b
        (if catalogue.commissions_from_net then i.un_tax_amount else i.total_amount)
        i.app_comission_percent
      ≡ some i.app_comission_amount

module _ {N : Type 0} (b : BigJs N) (catalogue : Catalogue N) (sale_mode currency : String) where
  generate_tax_dto-parts :
      (name : String) (total rate : N) {dto : TaxDto N}
      → generate_tax_dto b name total (some rate) none ≡ ok dto
      → (calculate_tax_amount b total rate ≡ ok dto.tax_amount)
        × (dto.untax_amount ≡ minus_number_values b total (dto.tax_amount ∷ []))
  unfolding generate_tax_dto calculate_untaxed_price
  generate_tax_dto-parts name total rate h =
      let (tax, taxed, done) = >>=-returned (calculate_tax_amount b total rate) _ h in
      subst
        (λ (dto : TaxDto N).
          (calculate_tax_amount b total rate ≡ ok dto.tax_amount)
          × (dto.untax_amount ≡ minus_number_values b total (dto.tax_amount ∷ [])))
        (ok-injective done) (taxed, refl)

  price_item-parts :
      (o : OrderedItem N) (item : Item) (tax : ItemTax N) (rate : N) (price default : ItemPrice N)
      {i : CalculatedItem N} {dto : TaxDto N}
      → price_item b catalogue sale_mode currency o item tax rate price default ≡ ok (i, dto)
      → IsTaxed b catalogue item.seller_account_id i dto
  unfolding price_item
  price_item-parts o item tax rate price default h =
      let total = multiply_number_values b (price.item_price ∷ o.quantity ∷ []) in
      let name = join " - " (tax.tax_name ∷ sale_mode ∷ []) in
      let percent =
        catalogue.commission_percent item.seller_account_id (or_blank item.item_class) in
      let (t, taxed, h0) =
        >>=-returned (as_order (generate_tax_dto b name total (some rate) none)) _ h in
      let (commission, due, h1) =
        >>=-returned
          (or_throw
            (calculate_comission_amount_by_percent b
              (if catalogue.commissions_from_net then t.untax_amount else total) percent)
            division_by_zero)
          _ h0 in
      let (tax_eq, untaxed) = generate_tax_dto-parts name total rate (as_order-ok _ taxed) in
      subst
        (λ (x : CalculatedItem N × TaxDto N). IsTaxed b catalogue item.seller_account_id x.0 x.1)
        (ok-injective h1)
        (record {
          seller_lem = refl;
          same_tax = refl;
          total_lem = refl;
          tax_lem = tax_eq;
          untaxed_lem = untaxed;
          commission_lem = or_throw-ok _ division_by_zero due;
        })

  calculate_item-IsPriced :
      (o : OrderedItem N) {i : CalculatedItem N} {dto : TaxDto N}
      → calculate_item b catalogue sale_mode currency o ≡ ok (i, dto)
      → IsPriced b catalogue i × (dto.tax_amount ≡ i.tax_amount)
  unfolding calculate_item
  calculate_item-IsPriced o {i} h =
      let (_, _, h0) = >>=-returned (throw_if (is_unidentified o) identification_missing) _ h in
      let (item, _, h1) = >>=-returned (or_throw (catalogue.fetch_item o) item_not_found) _ h0 in
      let (account, known, h2) =
        >>=-returned (or_throw (catalogue.account_type item.seller_account_id) seller_not_found) _
          h1 in
      let (_, sells, h3) =
        >>=-returned (throw_if (not (is_commercial account)) seller_not_commercial) _ h2 in
      let (tax, _, h4) =
        >>=-returned (or_throw (catalogue.fetch_tax item.item_tax_id) tax_not_found) _ h3 in
      let (variation, _, h5) =
        >>=-returned
          (or_throw (find (λ (v : ItemTaxVariation N). str_eq v.tax_mode sale_mode) tax.variations)
            tax_variation_not_found)
          _ h4 in
      let (price, _, h6) =
        >>=-returned
          (or_throw (first_price (catalogue.latest_prices currency item.id o.variation))
            price_not_found)
          _ h5 in
      let (default, _, h7) =
        >>=-returned
          (or_throw (first_price (catalogue.default_prices currency item.id o.variation))
            default_price_not_found)
          _ h6 in
      let t = price_item-parts o item tax variation.tax_rate price default h7 in
      (
        record {
          seller_commercial =
              ap catalogue.account_type t.seller_lem
              ∙ or_throw-ok _ seller_not_found known
              ∙ ap some (is_commercial-eq account (throw_if-ok _ seller_not_commercial sells));
          total_lem = t.total_lem;
          tax_lem = t.tax_lem;
          untaxed_lem = t.untaxed_lem;
          commission_lem = t.commission_lem;
        },
        t.same_tax,
      )

  -- What the calculation of an order answers, from the totals so far.
  abbrev IsSummed : N → N → Calculation N → Type 0
  IsSummed total tax r =
      (r.total_amount ≡ add_each b total (map (λ (i : CalculatedItem N). i.total_amount) r.items))
      × (r.total_tax_amount ≡ add_each b tax (map (λ (i : CalculatedItem N). i.tax_amount) r.items))
      × All (IsPriced b catalogue) r.items

  calculate_items-IsSummed :
      (total tax : N) (os : List (OrderedItem N)) {r : Calculation N}
      → calculate_items b catalogue sale_mode currency total tax os ≡ ok r
      → IsSummed total tax r
  unfolding calculate_items
  calculate_items-IsSummed total tax [] h =
      subst (IsSummed total tax) (ok-injective h) (refl, refl, tt)
  calculate_items-IsSummed total tax (o ∷ os) h =
      let ((i, dto), one, h0) =
        >>=-returned (calculate_item b catalogue sale_mode currency o) _ h in
      let (priced, same) = calculate_item-IsPriced o one in
      let total' = add_number_values b (total ∷ i.total_amount ∷ []) in
      let tax' = add_number_values b (tax ∷ dto.tax_amount ∷ []) in
      let (rest, others, done) =
        >>=-returned (calculate_items b catalogue sale_mode currency total' tax' os) _ h0 in
      let (totals, taxes, all) = calculate_items-IsSummed total' tax' os others in
      subst (IsSummed total tax) (ok-injective done) (
        totals,
        taxes
            ∙ ap
                (λ t.
                  add_each b (add_number_values b (tax ∷ t ∷ []))
                    (map (λ (i : CalculatedItem N). i.tax_amount) rest.items))
                same,
        (priced, all),
      )

  -- If an order is calculated, then, whatever the arithmetic rounds, its total and its tax are what
  -- the amounts and the taxes of the items that it answers add up to, one after the other; and of
  -- each item, a commercial account sells it, its amount is its unit amount times its quantity, its
  -- tax is the percentage in its amount, its amount before tax is the difference, and its commission
  -- is the percentage of the amount before tax or of the amount, as the setting says.
  pub calculate_total_amount-sum :
      (os : List (OrderedItem N)) {r : Calculation N}
      → calculate_total_amount b catalogue sale_mode currency os ≡ ok r
      → (r.total_amount
          ≡ add_each b (b.literal 0) (map (λ (i : CalculatedItem N). i.total_amount) r.items))
        × (r.total_tax_amount
            ≡ add_each b (b.literal 0) (map (λ (i : CalculatedItem N). i.tax_amount) r.items))
        × All (IsPriced b catalogue) r.items
  unfolding calculate_total_amount
  calculate_total_amount-sum os h =
      let (_, _, h0) =
        >>=-returned (throw_if (any (λ (o : OrderedItem N). is_long o.note) os) long_note) _ h in
      calculate_items-IsSummed (b.literal 0) (b.literal 0) os h0
