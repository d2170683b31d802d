-- ===== src/Tests/Shop.antt =====
-- One workspace with two warehouses, a bin in each, a product and five hundred hundredths of it.
use rezorpay_pro.Common.{
  zero_ℤ, pos, false, true, none, some, [], ◌∷◌, arith, AllRows, sum_by, sum, Result, ok, err,
}
use rezorpay_pro.Stock.{
  Stock, LevelKey, InventoryLevel, InventoryTransaction, receipt, IsLedgered, on_hand_total,
  ledger_total,
}
use rezorpay_pro.Stock.Checks.{HasChecks}
use rezorpay_pro.Stock.Ledger.{User, owner}

abbrev pub key : LevelKey
key = record { workspace_id = 1; product_id = 4; warehouse_id = 2; bin_id = 3 }

abbrev pub five : InventoryLevel
five = record { on_hand = pos 500; reserved = zero_ℤ; damaged = zero_ℤ; in_transit = zero_ℤ }

abbrev pub arrival : InventoryTransaction
arrival = record {
  workspace_id = 1;
  product_id = 4;
  transaction_type = receipt;
  quantity = pos 500;
  source_bin_id = none;
  destination_bin_id = some 3;
  reference_type = some "GRN";
  reference_id = some 70;
  reason = none;
  notes = none;
  user_id = 9;
}

abbrev pub shop : Stock
shop = record {
  warehouses =
      (2, record { workspace_id = 1; is_active = true })
      ∷ (5, record { workspace_id = 1; is_active = true })
      ∷ [];
  bins =
      (3, record { warehouse_id = 2; code = 0; is_active = true })
      ∷ (6, record { warehouse_id = 5; code = 0; is_active = true })
      ∷ [];
  products = (4, record { workspace_id = 1; is_deleted = false }) ∷ [];
  levels = (key, five) ∷ [];
  transactions = arrival ∷ [];
}

abbrev pub manager : User
manager = record { id = 9; role = owner }

-- The value of a call that returns.
abbrev pub value_of {ℓ} : {A : Type ℓ} → A → Result A → A
value_of d (ok a) = a
value_of d (err e) = d

pub shop-IsLedgered : IsLedgered shop
unfolding on_hand_total ledger_total sum_by sum
shop-IsLedgered w p b = ground arith

pub shop-HasChecks : HasChecks shop
unfolding AllRows
shop-HasChecks = (
  record {
    on_hand_nonneg = ground arith;
    reserved_nonneg = ground arith;
    damaged_nonneg = ground arith;
    in_transit_nonneg = ground arith;
  },
  tt,
)
