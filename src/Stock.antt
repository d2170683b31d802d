-- ===== src/Stock.antt =====
-- backend/app/models/inventory.py: the tables of the stock, as one session sees them. Ids are
-- numbers; quantities are counted in hundredths, the scale of their columns. Of the columns, names,
-- addresses and the audit stamps `created_at` and `updated_at` are left out.
pub mod Locate
pub mod Ledger
pub mod Balance
pub mod Checks
pub mod Moves
pub mod Issue
pub mod Shipping
pub mod Adjust
use Prim.Native.String.{String}
use rezorpay_pro.Common.{
  ℕ, ℤ, zero_ℤ, Bool, ◌&&◌, ◌||◌, Option, List, ◌∷◌, ◌≡◌, ◌↔◌, Table, Eq, ◌==◌, put, sum_by, sum,
  if◌then◌else◌, is_some_of, ◌-ℤ◌, arith, true,
}

pub record Warehouse : Type 0 where
  pub workspace_id : ℕ
  pub is_active : Bool

-- `code` is the place of the bin's code in the order of the database.
pub record WarehouseBin : Type 0 where
  pub warehouse_id : ℕ
  pub code : ℕ
  pub is_active : Bool

-- models/product.py, as far as the stock reads it.
pub record Product : Type 0 where
  pub workspace_id : ℕ
  pub is_deleted : Bool

-- The four columns by which `lock_or_create_level` selects a row.
pub record LevelKey : Type 0 where
  pub workspace_id : ℕ
  pub product_id : ℕ
  pub warehouse_id : ℕ
  pub bin_id : ℕ

pub record InventoryLevel : Type 0 where
  pub on_hand : ℤ
  pub reserved : ℤ
  pub damaged : ℤ
  pub in_transit : ℤ

pub data TransactionType : Type 0 where
  initial receipt issue transfer adjustment : TransactionType

pub record InventoryTransaction : Type 0 where
  pub workspace_id : ℕ
  pub product_id : ℕ
  pub transaction_type : TransactionType
  pub quantity : ℤ
  pub source_bin_id : Option ℕ
  pub destination_bin_id : Option ℕ
  pub reference_type : Option String
  pub reference_id : Option ℕ
  pub reason : Option String
  pub notes : Option String
  pub user_id : ℕ

unfoldable pub same_key : LevelKey → LevelKey → Bool
same_key a b =
    a.workspace_id == b.workspace_id
    && a.product_id == b.product_id
    && a.warehouse_id == b.warehouse_id
    && a.bin_id == b.bin_id

pub same_key_iff : (a b : LevelKey) → (same_key a b ≡ true) ↔ (a ≡ b)
unfolding same_key
same_key_iff a b = (λ h. ground arith, λ h. ground arith)

instance abbrev pub level_eq : Eq LevelKey
level_eq = record { beq = same_key; beq_iff = same_key_iff }

-- The rows that the services read and write; the ledger has its newest row first.
pub record Stock : Type 0 where
  pub warehouses : Table ℕ Warehouse
  pub bins : Table ℕ WarehouseBin
  pub products : Table ℕ Product
  pub levels : Table LevelKey InventoryLevel
  pub transactions : List InventoryTransaction

-- services/inventory_ledger.py, `available`: Rule 1.3.
unfoldable pub available : InventoryLevel → ℤ
available level = level.on_hand -ℤ level.reserved -ℤ level.damaged

-- The assignments to the attributes of a locked row.
unfoldable pub save_level : LevelKey → InventoryLevel → Stock → Stock
save_level key level s = record s { levels = put key level s.levels }

-- The same with the `session.add` of a ledger row behind it.
unfoldable pub post : LevelKey → InventoryLevel → InventoryTransaction → Stock → Stock
post key level txn s = record s {
  levels = put key level s.levels;
  transactions = txn ∷ s.transactions;
}

-- What stands on hand of a product in a bin, over the rows of `inventory_levels`.
abbrev pub at_bin : ℕ → ℕ → ℕ → LevelKey → Bool
at_bin workspace product bin k =
    k.workspace_id == workspace && (k.product_id == product && k.bin_id == bin)

unfoldable pub on_hand_total : ℕ → ℕ → ℕ → Stock → ℤ
on_hand_total workspace product bin s =
    sum_by (λ k l. if at_bin workspace product bin k then l.on_hand else zero_ℤ) s.levels

-- What the ledger says of it.
abbrev pub touches : ℕ → ℕ → ℕ → InventoryTransaction → Bool
touches workspace product bin t =
    t.workspace_id == workspace
    && (t.product_id == product
        && (is_some_of t.source_bin_id bin || is_some_of t.destination_bin_id bin))

unfoldable pub ledger_total : ℕ → ℕ → ℕ → Stock → ℤ
ledger_total workspace product bin s =
    sum (λ t. if touches workspace product bin t then t.quantity else zero_ℤ) s.transactions

-- Rule 1.2: the immutable ledger accounts for the stock on hand of every product in every bin.
abbrev pub IsLedgered : Stock → Type 0
IsLedgered s =
    (workspace product bin : ℕ)
    → on_hand_total workspace product bin s ≡ ledger_total workspace product bin s
