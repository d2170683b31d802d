-- ===== src/Count.antt =====
-- backend/app/models/stock_count.py and services/stock_count_service.py: physical counts of a
-- warehouse. The items are rows of their count under their ids; that no two have the same product
-- and bin follows from the same constraint on the levels. `year` is the year of the clock.
pub mod Steps
pub mod Reconcile
pub mod Approval
use Prim.Native.String.{String}
use rezorpay_pro.Common.{
  abs_ℤ, ℕ, ℤ, zero_ℤ, pos, negsuc, suc, Bool, true, false, not, ◌&&◌, ◌||◌, Option, none, some,
  List, [], ◌∷◌, Table, nat_eq, ◌==◌, ltb_ℤ, leb_ℤ, eq_ℤ, ◌-ℤ◌, ◌*◌, lookup, put, if◌then◌else◌,
  Result, ok, http, integrity, not_found, validation_error, invalid_state, insufficient_permissions,
  ◌>>=◌, ◌>>◌, raise_if, or_raise,
}
use rezorpay_pro.Numbers.{DocumentNumber, Counters, generate_count_number}
use rezorpay_pro.Stock.{Stock, LevelKey, InventoryLevel}
use rezorpay_pro.Stock.Locate.{only_if, load_warehouse}
use rezorpay_pro.Stock.Ledger.{User, is_manager}
use rezorpay_pro.Stock.Checks.{flush}

pub data StockCountStatus : Type 0 where
  scheduled in_progress completed reconciled cancelled : StockCountStatus

pub record StockCountItem : Type 0 where
  pub product_id : ℕ
  pub bin_id : ℕ
  pub expected_quantity : ℤ
  pub counted_quantity : Option ℤ
  pub requires_approval : Bool
  pub approved : Bool
  pub notes : Option String
  pub created_at : ℕ

pub record StockCount : Type 0 where
  pub workspace_id : ℕ
  pub count_number : DocumentNumber
  pub warehouse_id : ℕ
  pub status : StockCountStatus
  pub notes : Option String
  pub started_at : Option ℕ
  pub completed_at : Option ℕ
  pub reconciled_at : Option ℕ
  pub cancelled_at : Option ℕ
  pub approved_by : Option ℕ
  pub approved_at : Option ℕ
  pub created_by : ℕ
  pub items : Table ℕ StockCountItem

pub record CountStore : Type 0 where
  pub stock : Stock
  pub counts : Table ℕ StockCount
  pub counters : Counters

unfoldable pub variance : StockCountItem → ℤ
variance item = elim item.counted_quantity [
  | none ↦ zero_ℤ
  | some counted ↦ counted -ℤ item.expected_quantity
]

-- A quantity times a whole number.
abbrev pub times : ℤ → ℕ → ℤ
times (pos n) k = pos (n * k)
times (negsuc n) k = zero_ℤ -ℤ pos (suc n * k)

abbrev pub count_tolerance_percent : ℕ
count_tolerance_percent = 2

unfoldable pub needs_approval : ℤ → Option ℤ → Bool
needs_approval expected none = false
needs_approval expected (some counted) =
    let difference = counted -ℤ expected in
    if eq_ℤ difference zero_ℤ
    then false
    else if eq_ℤ expected zero_ℤ
    then true
    else ltb_ℤ (times expected count_tolerance_percent) (times (abs_ℤ difference) 100)

unfoldable pub require : ℕ → ℕ → CountStore → Result StockCount
require count_id workspace_id s =
    or_raise (only_if (λ c. c.workspace_id == workspace_id) (lookup count_id s.counts))
      (http 404 not_found)

-- The CHECK constraints of an item: `counted_quantity >= 0` passes where it is null.
abbrev pub is_item : StockCountItem → Bool
is_item item =
    leb_ℤ zero_ℤ item.expected_quantity
    && elim item.counted_quantity [ none ↦ true | some counted ↦ leb_ℤ zero_ℤ counted ]

unfoldable pub all_items : Table ℕ StockCountItem → Bool
all_items [] = true
all_items ((id, item) ∷ items) = is_item item && all_items items

-- The header is written and flushed with the stock.
unfoldable pub save : ℕ → StockCount → Stock → CountStore → Result CountStore
unfolding flush all_items
save id header stock s = do
  raise_if (not (all_items header.items)) integrity
  stock' ← flush stock
  ok (record s { stock = stock'; counts = put id header s.counts })

-- The expected quantity is what stands on hand, of every level of the warehouse.
unfoldable pub levels_of : ℕ → ℕ → Table LevelKey InventoryLevel → Table LevelKey InventoryLevel
levels_of workspace_id warehouse_id [] = []
levels_of workspace_id warehouse_id ((k, l) ∷ t) =
    let rest = levels_of workspace_id warehouse_id t in
    if k.workspace_id == workspace_id && k.warehouse_id == warehouse_id then (k, l) ∷ rest else rest

unfoldable pub expected_items : ℕ → ℕ → Table LevelKey InventoryLevel → Table ℕ StockCountItem
expected_items now id [] = []
expected_items now id ((k, l) ∷ t) =
    (
      id,
      record {
        product_id = k.product_id;
        bin_id = k.bin_id;
        expected_quantity = l.on_hand;
        counted_quantity = none;
        requires_approval = false;
        approved = false;
        notes = none;
        created_at = now;
      },
    )
    ∷ expected_items now (suc id) t

abbrev pub is_present {ℓ} : {A : Type ℓ} → Option A → Bool
is_present none = false
is_present (some a) = true

-- `new_id` is the id of the count, and the ids of its items follow `first_item`.
unfoldable pub create_count :
    ℕ → User → ℕ → Option String → ℕ → ℕ → ℕ → ℕ → CountStore → Result CountStore
unfolding load_warehouse generate_count_number levels_of expected_items save
create_count workspace_id user warehouse_id notes year new_id first_item now s = do
  raise_if (not (is_manager user.role)) (http 403 insufficient_permissions)
  w ← load_warehouse warehouse_id workspace_id s.stock
  let (number, counters) = generate_count_number year workspace_id none s.counters
  raise_if (is_present (lookup new_id s.counts)) integrity
  save new_id
      (record {
        workspace_id = workspace_id;
        count_number = number;
        warehouse_id = warehouse_id;
        status = scheduled;
        notes = notes;
        started_at = none;
        completed_at = none;
        reconciled_at = none;
        cancelled_at = none;
        approved_by = none;
        approved_at = none;
        created_by = user.id;
        items = expected_items now first_item (levels_of workspace_id warehouse_id s.stock.levels);
      })
      s.stock (record s { counters = counters })
