-- ===== src/Tests/PriceRuns.antt =====
-- A cable with a listed price, two steps of a tier and a price of one client.
use rezorpay_pro.Common.{
  ℕ, pos, true, false, some, none, Option, [], ◌∷◌, ◌≡◌, refl, lookup, nat_eq, ok, err, http,
  no_list_price,
}
use rezorpay_pro.Pricing.{
  PriceType, default_sales, tier_1, customer_specific, ProductPrice, PricedProduct, Catalog,
  resolve, load_priced_product, assert_client,
}
use rezorpay_pro.Pricing.Chosen.{Answered, resolve-Answered}
use rezorpay_pro.Tests.Desk.{customer}

abbrev cable : PricedProduct
cable = record { workspace_id = 1; is_active = true; is_deleted = false }

abbrev price_row : ℕ → PriceType → ℕ → Option ℕ → ℕ → ProductPrice
price_row id kind price client least = record {
  id = id;
  workspace_id = 1;
  product_id = 40;
  price_type = kind;
  is_aed = true;
  price = pos price;
  client_id = client;
  min_quantity = some (pos least);
}

abbrev catalog : Catalog
catalog = record {
  products = (40, cable) ∷ [];
  clients = (5, customer) ∷ (6, customer) ∷ [];
  prices =
      price_row 1 default_sales 1200 none 100
      ∷ price_row 2 tier_1 1100 none 1000
      ∷ price_row 3 tier_1 1000 none 5000
      ∷ price_row 4 customer_specific 900 (some 5) 2000
      ∷ [];
}

-- A hundred pieces go at the second step of the tier, for a client without a price of its own.
second_step :
    resolve 1 40 (some 6) (pos 10_000) catalog
    ≡ ok (record {
      unit_price = pos 1000;
      price_type = tier_1;
      min_quantity = some (pos 5000);
      price_id = 3;
    })
unfolding resolve lookup
second_step = refl

own_price :
    resolve 1 40 (some 5) (pos 10_000) catalog
    ≡ ok (record {
      unit_price = pos 900;
      price_type = customer_specific;
      min_quantity = some (pos 2000);
      price_id = 4;
    })
unfolding resolve lookup
own_price = refl

too_few : resolve 1 40 none (pos 50) catalog ≡ err (http 422 no_list_price)
unfolding resolve lookup
too_few = refl

loaded : load_priced_product 1 40 catalog ≡ ok cable
unfolding load_priced_product lookup
loaded = refl

known : assert_client 1 (some 5) catalog ≡ ok tt
unfolding assert_client lookup
known = refl

resolve-Answered_example :
    Answered 1 40 (some 5) (pos 10_000) catalog (resolve 1 40 (some 5) (pos 10_000) catalog)
resolve-Answered_example =
    resolve-Answered 1 40 (some 5) (pos 10_000) catalog cable loaded known refl
