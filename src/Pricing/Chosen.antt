-- ===== src/Pricing/Chosen.antt =====
-- Which price services/pricing_service.py resolves.
use rezorpay_pro.Common.{
  ℕ, ℤ, zero_ℤ, Bool, true, false, ◌&&◌, ◌||◌, Option, none, some, List, [], ◌∷◌, ◌==◌, ◌≡◌, refl,
  subst, inl, inr, Bool-cases, ltb, leb, ltb_ℤ, if◌then◌else◌, leb_ℤ, All, Among, arith, Result, ok,
  err, http, no_list_price, ◌>>=◌, or_raise,
}
use rezorpay_pro.Pricing.{
  ProductPrice, min_qty, keep, best_row, is_for, is_tier, is_listed, or_else_row, pick,
  customer_specific, tier_1, default_sales, other_type, PricedProduct, Catalog, ResolvedPrice,
  load_priced_product, assert_client, aed_prices, to_resolved, resolve,
}
use rezorpay_pro.Pricing.Sorting.{All-map, All-self, All-keep, All-kept, Best, both, best_row-Best}

-- The kinds of rows, the client's own first. A row of rank zero is for nobody here.
abbrev pub if_open_to_all : ℕ → Option ℕ → ℕ
if_open_to_all n none = n
if_open_to_all n (some id) = 0

abbrev pub if_same : Option ℕ → Option ℕ → ℕ
if_same (some asked) (some id) = if asked == id then 3 else 0
if_same _ _ = 0

abbrev pub rank : Option ℕ → ProductPrice → ℕ
rank client row = elim row.price_type [
  | customer_specific ↦ if_same client row.client_id
  | tier_1 ↦ if_open_to_all 2 row.client_id
  | default_sales ↦ if_open_to_all 1 row.client_id
  | other_type ↦ 0
]

abbrev pub applies : Option ℕ → ℤ → ProductPrice → Bool
applies client quantity row = ltb 0 (rank client row) && leb_ℤ (min_qty row) quantity

abbrev pub is_larger_step : ProductPrice → ProductPrice → Bool
is_larger_step a b =
    ltb_ℤ (min_qty b) (min_qty a) || (leb_ℤ (min_qty b) (min_qty a) && leb a.id b.id)

-- A row of a higher rank, and within a rank the larger least quantity, then the smaller id.
abbrev pub is_preferred : Option ℕ → ProductPrice → ProductPrice → Bool
is_preferred client a b =
    ltb (rank client b) (rank client a) || ((rank client a == rank client b) && is_larger_step a b)

-- A row that applies and is preferred to all that apply, or none where none applies.
unfoldable Chosen : Option ℕ → ℤ → List ProductPrice → Option ProductPrice → Type 0
Chosen client quantity rows none = All (λ row. applies client quantity row ≡ false) rows
Chosen client quantity rows (some best) =
    Among best rows
    × (applies client quantity best ≡ true)
    × All (λ row. applies client quantity row ≡ true → is_preferred client best row ≡ true) rows

tier_not_for :
    (client : Option ℕ) (row : ProductPrice) → is_tier row ≡ true → is_for client row ≡ false
tier_not_for none row h = refl
tier_not_for (some id) row h = ground arith

listed_not_for :
    (client : Option ℕ) (row : ProductPrice)
    → is_listed row ≡ true
    → (is_for client row ≡ false) × (is_tier row ≡ false)
listed_not_for none row h = ground arith
listed_not_for (some id) row h = ground arith

module _ {A : Type 0} (P Q : A → Type 0) where
  All-zip : (xs : List A) → All P xs → All Q xs → All (λ x. P x × Q x) xs
  All-zip [] p q = tt
  All-zip (x ∷ xs) p q = ((p.0, q.0), All-zip xs p.1 q.1)

module _ (client : Option ℕ) (quantity : ℤ) (rows : List ProductPrice) where
  choose :
      (own tier listed : Option ProductPrice)
      → Best (both (is_for client) quantity) rows own
      → Best (both is_tier quantity) rows tier
      → Best (both is_listed quantity) rows listed
      → Chosen client quantity rows (or_else_row own (or_else_row tier listed))
  unfolding Best Chosen
  choose (some best) tier listed (there, fits, first) _ _ =
      (there, ground arith, All-map (λ row k h. ground arith) rows first)
  choose none (some best) listed no_own (there, fits, first) _ =
      let other = tier_not_for client best (ground arith) in
      (there, ground arith, All-map (λ row k h. ground arith) rows (All-zip _ _ rows no_own first))
  choose none none (some best) no_own no_tier (there, fits, first) =
      let others = listed_not_for client best (ground arith) in
      (
        there,
        ground arith,
        All-map (λ row k h. ground arith) rows
            (All-zip _ _ rows (All-zip _ _ rows no_own no_tier) first),
      )
  choose none none none no_own no_tier no_listed =
      All-map (λ row k. ground arith) rows
        (All-zip _ _ rows (All-zip _ _ rows no_own no_tier) no_listed)

  pick-Chosen : Chosen client quantity rows (pick rows client quantity)
  unfolding pick
  pick-Chosen =
      choose (best_row (keep (is_for client) rows) quantity) (best_row (keep is_tier rows) quantity)
        (best_row (keep is_listed rows) quantity) (best_row-Best (is_for client) quantity rows)
        (best_row-Best is_tier quantity rows) (best_row-Best is_listed quantity rows)

All-Among :
    (P : ProductPrice → Type 0) (x : ProductPrice) (xs : List ProductPrice)
    → Among x xs
    → All P xs
    → P x
All-Among P x [] there h = elim there [ ]
All-Among P x (y ∷ ys) (inl same) h = subst P same h.0
All-Among P x (y ∷ ys) (inr later) h = All-Among P x ys later h.1

-- A row in AED of the product and the workspace.
abbrev pub is_offered : ℕ → ℕ → ProductPrice → Bool
is_offered workspace_id product_id row =
    row.is_aed && (row.product_id == product_id) && (row.workspace_id == workspace_id)

-- The price of a row.
abbrev pub Priced : ProductPrice → ResolvedPrice → Type 0
Priced row price =
    (price.unit_price ≡ row.price)
    × (price.price_type ≡ row.price_type)
    × (price.min_quantity ≡ row.min_quantity)
    × (price.price_id ≡ row.id)

module _ (workspace_id product_id : ℕ) (client_id : Option ℕ) (quantity : ℤ) (s : Catalog) where
  -- A row of the catalog that may be the answer.
  abbrev pub is_candidate : ProductPrice → Bool
  is_candidate row = is_offered workspace_id product_id row && applies client_id quantity row

  -- What a call with a product, a client and a quantity that pass comes to: there is no candidate, or
  -- the price is that of a candidate that is preferred to all.
  unfoldable pub Answered : Result ResolvedPrice → Type 0
  Answered (err raised) =
      (raised ≡ http 422 no_list_price) × All (λ row. is_candidate row ≡ false) s.prices
  Answered (ok price) =
      (row : ProductPrice) × Priced row price
      × Among row s.prices
      × (is_candidate row ≡ true)
      × All (λ other. is_candidate other ≡ true → is_preferred client_id row other ≡ true) s.prices

  abbrev in_query : ProductPrice → Bool
  in_query row = (row.workspace_id == workspace_id) && (row.product_id == product_id) && row.is_aed

  query-Among :
      (row : ProductPrice)
      → Among row (aed_prices workspace_id product_id s)
      → Among row s.prices × (in_query row ≡ true)
  unfolding aed_prices
  query-Among row there =
      All-Among (λ x. Among x s.prices × (in_query x ≡ true)) row (keep in_query s.prices) there
        (All-keep (λ x. Among x s.prices) in_query s.prices (All-self s.prices))

  query-All :
      (P : ProductPrice → Type 0)
      → All P (aed_prices workspace_id product_id s)
      → All (λ row. in_query row ≡ true → P row) s.prices
  unfolding aed_prices
  query-All P h = All-kept P in_query s.prices h

  not_candidate :
      (row : ProductPrice)
      → (in_query row ≡ true → applies client_id quantity row ≡ false)
      → is_candidate row ≡ false
  not_candidate row k = elim (Bool-cases (in_query row)) [
    | inl asked ↦ let e = k asked in ground arith
    | inr other ↦ ground arith
  ]

  answer :
      (picked : Option ProductPrice)
      → Chosen client_id quantity (aed_prices workspace_id product_id s) picked
      → Answered (or_raise picked (http 422 no_list_price) >>= λ row. ok (to_resolved row))
  unfolding Answered Chosen to_resolved
  answer none h = (
    refl,
    All-map not_candidate s.prices (query-All (λ row. applies client_id quantity row ≡ false) h),
  )
  answer (some row) (there, fits, first) =
      let (stored, asked) = query-Among row there in
      (
        row,
        (refl, refl, refl, refl),
        stored,
        ground arith,
        All-map (λ other k e. k (ground arith) (ground arith)) s.prices
            (query-All
              (λ other.
                applies client_id quantity other ≡ true → is_preferred client_id row other ≡ true)
              first),
      )

  -- Where the product is there, the client (if one is given) is there and the quantity is positive,
  -- resolve gives the price of a row of the catalog in AED and of the product and the workspace that
  -- applies and is preferred to every other such row: a price of the client before one of the tier
  -- before a listed one, and then the largest least quantity, then the smallest id; it raises
  -- NO_LIST_PRICE with status 422 just where no such row applies.
  pub resolve-Answered :
      (product : PricedProduct)
      → load_priced_product workspace_id product_id s ≡ ok product
      → assert_client workspace_id client_id s ≡ ok tt
      → leb_ℤ quantity zero_ℤ ≡ false
      → Answered (resolve workspace_id product_id client_id quantity s)
  unfolding resolve
  resolve-Answered product loaded known positive =
      let rows = aed_prices workspace_id product_id s in
      rw (resolve, loaded, known, positive)
        (answer (pick rows client_id quantity) (pick-Chosen client_id quantity rows))
