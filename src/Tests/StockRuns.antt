-- ===== src/Tests/StockRuns.antt =====
-- The ledger of services/inventory_ledger.py on the small shop.
use rezorpay_pro.Common.{
  zero_ℤ, pos, negsuc, false, true, none, [], ◌∷◌, ◌≡◌, ◌↔◌, refl, arith, ok, ◌≤ℤ◌, lookup, put,
  ◌-ℤ◌, ◌+ℤ◌, ltb_ℤ,
}
use rezorpay_pro.Stock.{Stock, LevelKey, IsLedgered, available, post, same_key}
use rezorpay_pro.Stock.Checks.{HasChecks, level_at}
use rezorpay_pro.Stock.Ledger.{post_issue, issue_out, adjust, adjustment_row}
use rezorpay_pro.Stock.Locate.{
  lock_or_create_level, load_product, load_warehouse, load_bin, is_bin_of,
}
use rezorpay_pro.Stock.Issue.{post_issue-IsLedgered}
use rezorpay_pro.Stock.Shipping.{Shipped, post_issue-Shipped, post_issue_iff, post_issue_undone}
use rezorpay_pro.Stock.Adjust.{Adjusted, adjust-Adjusted, adjust-IsLedgered, adjust_below_reserved}
use rezorpay_pro.Tests.Shop.{value_of, key, five, shop, manager, shop-IsLedgered, shop-HasChecks}

abbrev shipped : Stock
shipped = value_of shop (post_issue key (pos 200) 9 71 false none none shop)

run : post_issue key (pos 200) 9 71 false none none shop ≡ ok shipped
unfolding post_issue lock_or_create_level issue_out available post lookup put same_key ◌-ℤ◌ ◌+ℤ◌
run = refl

-- A row most of which is reserved.
abbrev held_back : Stock
held_back = record shop {
  levels =
      (key, record { on_hand = pos 500; reserved = pos 300; damaged = zero_ℤ; in_transit = zero_ℤ })
      ∷ [];
}

abbrev adjusted : Stock
adjusted = value_of shop (adjust key manager (pos 200) "found" "shelf" shop)

adjusting : adjust key manager (pos 200) "found" "shelf" shop ≡ ok adjusted
unfolding adjust load_product load_warehouse load_bin is_bin_of lock_or_create_level available post
    lookup put same_key ◌-ℤ◌ ◌+ℤ◌ adjustment_row
adjusting = refl

post_issue_iff_example :
    ((s' : Stock) × (post_issue key (pos 200) 9 71 false none none shop ≡ ok s'))
    ↔ ((pos 1 ≤ℤ pos 200) × (pos 200 ≤ℤ available five))
unfolding lookup same_key
post_issue_iff_example = post_issue_iff key (pos 200) 9 71 none none shop five refl

post_issue_undone_example :
    (s'' : Stock) × (post_issue key (pos 200) 8 72 true none none shipped ≡ ok s'')
    × ((k : LevelKey) → level_at k s'' ≡ level_at k shop)
post_issue_undone_example =
    post_issue_undone key (pos 200) 9 71 8 72 none none none none shop shipped run

post_issue-Shipped_example : Shipped key (pos 200) shop shipped
post_issue-Shipped_example = post_issue-Shipped key (pos 200) 9 71 none none shop shipped run

post_issue-IsLedgered_example : IsLedgered shipped
post_issue-IsLedgered_example =
    post_issue-IsLedgered key (pos 200) 9 71 none none shop shipped false run shop-IsLedgered

adjust-Adjusted_example : Adjusted key manager (pos 200) shop adjusted
adjust-Adjusted_example = adjust-Adjusted key manager (pos 200) "found" "shelf" shop _ adjusting

adjust-IsLedgered_example : IsLedgered adjusted × HasChecks adjusted
adjust-IsLedgered_example =
    adjust-IsLedgered key manager (pos 200) "found" "shelf" shop _ adjusting shop-IsLedgered
      shop-HasChecks

adjust_below_reserved_example :
    (s' : Stock) × (adjust key manager (negsuc 399) "lost" "shelf" held_back ≡ ok s')
    × (ltb_ℤ (available (level_at key s')) zero_ℤ ≡ true)
unfolding load_product load_warehouse load_bin is_bin_of lookup same_key ◌+ℤ◌
adjust_below_reserved_example =
    adjust_below_reserved key manager (negsuc 399) "lost" "shelf" held_back
      (record { on_hand = pos 500; reserved = pos 300; damaged = zero_ℤ; in_transit = zero_ℤ }) refl
      refl refl refl refl (ground arith) refl refl
