-- ===== src/Pricing.antt =====
-- services/pricing_service.py: the sales price of a product for a quantity and a client. Only rows
-- in AED count; money and quantities are in hundredths, as in their columns.
pub mod Sorting
pub mod Chosen
use rezorpay_pro.Common.{
  ℕ, ℤ, zero_ℤ, Bool, true, false, not, ◌&&◌, ◌||◌, Option, none, some, List, [], ◌∷◌, Table, ◌==◌,
  leb, if◌then◌else◌, ltb_ℤ, leb_ℤ, eq_ℤ, lookup, is_some_of, nat_eq, Result, ok, http, ◌>>=◌, ◌>>◌,
  raise_if, or_raise, not_found, validation_error, no_list_price, ⊤,
}
use rezorpay_pro.Receivable.{Client}

-- The texts of the column; `other_type` is one that the allow-list does not have.
pub data PriceType : Type 0 where
  default_sales tier_1 customer_specific other_type : PriceType

pub record ProductPrice : Type 0 where
  pub id : ℕ
  pub workspace_id : ℕ
  pub product_id : ℕ
  pub price_type : PriceType
  pub is_aed : Bool
  pub price : ℤ
  pub client_id : Option ℕ
  pub min_quantity : Option ℤ

-- The columns of a product that a price is resolved with.
pub record PricedProduct : Type 0 where
  pub workspace_id : ℕ
  pub is_active : Bool
  pub is_deleted : Bool

-- The tables that a price is read from.
pub record Catalog : Type 0 where
  pub products : Table ℕ PricedProduct
  pub clients : Table ℕ Client
  pub prices : List ProductPrice

-- The currency is AED throughout.
pub record ResolvedPrice : Type 0 where
  pub unit_price : ℤ
  pub price_type : PriceType
  pub min_quantity : Option ℤ
  pub price_id : ℕ

pub record ResolvedPriceResponse : Type 0 where
  pub product_id : ℕ
  pub client_id : Option ℕ
  pub quantity : ℤ
  pub unit_price : ℤ
  pub price_type : PriceType
  pub min_quantity : Option ℤ
  pub price_id : ℕ

abbrev pub is_customer_specific : PriceType → Bool
is_customer_specific customer_specific = true
is_customer_specific _ = false

abbrev pub is_tier_1 : PriceType → Bool
is_tier_1 tier_1 = true
is_tier_1 _ = false

abbrev pub is_default_sales : PriceType → Bool
is_default_sales default_sales = true
is_default_sales _ = false

abbrev pub has_no_client : Option ℕ → Bool
has_no_client none = true
has_no_client (some client) = false

abbrev pub min_or_zero : Option ℤ → ℤ
min_or_zero none = zero_ℤ
min_or_zero (some quantity) = quantity

-- `_min_qty`.
abbrev pub min_qty : ProductPrice → ℤ
min_qty row = min_or_zero row.min_quantity

-- `[row for row in rows if test(row)]`
unfoldable pub keep : (ProductPrice → Bool) → List ProductPrice → List ProductPrice
keep test [] = []
keep test (row ∷ rows) = let rest = keep test rows in if test row then row ∷ rest else rest

-- `eligible.sort(key=lambda row: (-_min_qty(row), row.id))`
abbrev pub goes_before : ProductPrice → ProductPrice → Bool
goes_before a b = ltb_ℤ (min_qty b) (min_qty a) || (eq_ℤ (min_qty a) (min_qty b) && leb a.id b.id)

unfoldable pub insert_row : ProductPrice → List ProductPrice → List ProductPrice
insert_row row [] = row ∷ []
insert_row row (next ∷ rows) =
    let later = insert_row row rows in
    if goes_before row next then row ∷ next ∷ rows else next ∷ later

unfoldable pub sort_rows : List ProductPrice → List ProductPrice
unfolding insert_row
sort_rows [] = []
sort_rows (row ∷ rows) = insert_row row (sort_rows rows)

abbrev pub first_row : List ProductPrice → Option ProductPrice
first_row [] = none
first_row (row ∷ rows) = some row

unfoldable pub best_row : List ProductPrice → ℤ → Option ProductPrice
unfolding keep sort_rows
best_row rows quantity = first_row (sort_rows (keep (λ row. leb_ℤ (min_qty row) quantity) rows))

abbrev pub is_for : Option ℕ → ProductPrice → Bool
is_for none row = false
is_for (some client) row = is_customer_specific row.price_type && is_some_of row.client_id client

abbrev pub is_tier : ProductPrice → Bool
is_tier row = is_tier_1 row.price_type && has_no_client row.client_id

abbrev pub is_listed : ProductPrice → Bool
is_listed row = is_default_sales row.price_type && has_no_client row.client_id

abbrev pub or_else_row : Option ProductPrice → Option ProductPrice → Option ProductPrice
or_else_row none other = other
or_else_row (some row) other = some row

-- `_pick`; without a client no row is the client's.
unfoldable pub pick : List ProductPrice → Option ℕ → ℤ → Option ProductPrice
unfolding best_row
pick rows client_id quantity =
    or_else_row (best_row (keep (is_for client_id) rows) quantity) (
      or_else_row (best_row (keep is_tier rows) quantity) (best_row (keep is_listed rows) quantity))

unfoldable pub load_priced_product : ℕ → ℕ → Catalog → Result PricedProduct
load_priced_product workspace_id product_id s = do
  product ← or_raise (lookup product_id s.products) (http 404 not_found)
  raise_if (not (product.workspace_id == workspace_id) || product.is_deleted) (http 404 not_found)
  ok product

unfoldable pub assert_client : ℕ → Option ℕ → Catalog → Result ⊤
assert_client workspace_id none s = ok tt
assert_client workspace_id (some id) s = do
  client ← or_raise (lookup id s.clients) (http 404 not_found)
  raise_if (not (client.workspace_id == workspace_id) || client.is_deleted) (http 404 not_found)

-- `_aed_prices`.
unfoldable pub aed_prices : ℕ → ℕ → Catalog → List ProductPrice
unfolding keep
aed_prices workspace_id product_id s =
    keep (λ row. (row.workspace_id == workspace_id) && (row.product_id == product_id) && row.is_aed)
      s.prices

unfoldable pub to_resolved : ProductPrice → ResolvedPrice
to_resolved row = record {
  unit_price = row.price;
  price_type = row.price_type;
  min_quantity = row.min_quantity;
  price_id = row.id;
}

unfoldable pub resolve : ℕ → ℕ → Option ℕ → ℤ → Catalog → Result ResolvedPrice
unfolding load_priced_product assert_client aed_prices pick to_resolved
resolve workspace_id product_id client_id quantity s = do
  product ← load_priced_product workspace_id product_id s
  assert_client workspace_id client_id s
  raise_if (leb_ℤ quantity zero_ℤ) (http 422 validation_error)
  winner ←
      or_raise (pick (aed_prices workspace_id product_id s) client_id quantity)
        (http 422 no_list_price)
  ok (to_resolved winner)

unfoldable pub to_response : ℕ → Option ℕ → ℤ → ResolvedPrice → ResolvedPriceResponse
to_response product_id client_id quantity resolved = record {
  product_id = product_id;
  client_id = client_id;
  quantity = quantity;
  unit_price = resolved.unit_price;
  price_type = resolved.price_type;
  min_quantity = resolved.min_quantity;
  price_id = resolved.price_id;
}

unfoldable pub preview : ℕ → ℕ → Option ℕ → ℤ → Catalog → Result ResolvedPriceResponse
unfolding load_priced_product resolve to_response
preview workspace_id product_id client_id quantity s = do
  product ← load_priced_product workspace_id product_id s
  raise_if (not product.is_active) (http 400 validation_error)
  resolved ← resolve workspace_id product_id client_id quantity s
  ok (to_response product_id client_id quantity resolved)
