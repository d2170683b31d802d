-- ===== src/Tests/CountRuns.antt =====
-- A count of the small shop finds one unit less than the levels say.
use rezorpay_pro.Common.{
  abs_ℤ, pos, true, none, some, [], ◌∷◌, ◌≡◌, refl, ok, lookup, put, ◌-ℤ◌, ◌+ℤ◌, for_each, sorted,
  ltb_ℤ, arith, nat_eq,
}
use rezorpay_pro.Stock.{IsLedgered, same_key, post}
use rezorpay_pro.Stock.Locate.{lock_or_create_level}
use rezorpay_pro.Stock.Checks.{flush, all_stored}
use rezorpay_pro.Numbers.{text_of, decimal, padded}
use rezorpay_pro.Count.{
  StockCount, CountStore, completed, reconciled, require, save, all_items, variance, needs_approval,
  times,
}
use rezorpay_pro.Count.Approval.{needs_approval-eq}
use rezorpay_pro.Count.Steps.{
  approve_count, reconcile_count, is_pending, count_lines, reconcile_item, correct_level, item_key,
  count_row,
}
use rezorpay_pro.Count.Reconcile.{
  Reconciled, reconcile_count-Reconciled, reconcile_count-IsLedgered,
}
use rezorpay_pro.Tests.Shop.{value_of, shop, manager, shop-IsLedgered}

abbrev counted : StockCount
counted = record {
  workspace_id = 1;
  count_number = record { prefix = "SC"; year = 2026; number = 3 };
  warehouse_id = 2;
  status = completed;
  notes = none;
  started_at = some 50;
  completed_at = some 51;
  reconciled_at = none;
  cancelled_at = none;
  approved_by = some 9;
  approved_at = some 52;
  created_by = 9;
  items =
      (
        81,
        record {
          product_id = 4;
          bin_id = 3;
          expected_quantity = pos 500;
          counted_quantity = some (pos 400);
          requires_approval = true;
          approved = true;
          notes = none;
          created_at = 50;
        },
      )
      ∷ [];
}

abbrev start : CountStore
start = record { stock = shop; counts = (80, counted) ∷ []; counters = [] }

abbrev corrected : CountStore
corrected = value_of start (reconcile_count 1 manager 80 60 start)

reconciling : reconcile_count 1 manager 80 60 start ≡ ok corrected
unfolding reconcile_count require save all_items flush all_stored is_pending count_lines
    reconcile_item correct_level item_key count_row variance lock_or_create_level post lookup put
    same_key ◌-ℤ◌ ◌+ℤ◌ for_each sorted text_of decimal padded
reconciling = refl

reconcile_count-Reconciled_example :
    (header : StockCount) × Reconciled 80 manager header
      (record header { status = reconciled; reconciled_at = some 60 })
      start
      corrected
reconcile_count-Reconciled_example =
    reconcile_count-Reconciled 1 manager 80 60 start corrected reconciling

reconcile_count-IsLedgered_example : IsLedgered corrected.stock
reconcile_count-IsLedgered_example =
    reconcile_count-IsLedgered 1 manager 80 60 start corrected reconciling shop-IsLedgered

needs_approval-eq_example :
    needs_approval (pos 500) (some (pos 490))
    ≡ ltb_ℤ (times (pos 500) 2) (times (abs_ℤ (pos 490 -ℤ pos 500)) 100)
needs_approval-eq_example = needs_approval-eq (pos 500) (pos 490) (ground arith)

abbrev approved_count : CountStore
approved_count = value_of start (approve_count 1 manager 80 61 start)

approving : approve_count 1 manager 80 61 start ≡ ok approved_count
unfolding approve_count require save all_items flush all_stored lookup put
approving = refl
