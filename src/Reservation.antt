-- ===== src/Reservation.antt =====
-- backend/app/models/stock_reservation.py, and of the customer purchase orders
-- (models/customer_purchase_order.py) what the reservations read.
pub mod Release
pub mod Create
pub mod Dispatch
pub mod Balance
pub mod Keeps
pub mod Reserve
pub mod Consume
pub mod Fifo
pub mod Exhaust
pub mod Ship
use Prim.Native.String.{String}
use rezorpay_pro.Common.{
  ◌>>=◌, ◌>>◌, nat_eq, ℕ, ℤ, zero_ℤ, Bool, true, false, not, ◌&&◌, Option, [], ◌∷◌, Table, ltb_ℤ,
  leb_ℤ, ◌-ℤ◌, ◌≤ℤ◌, pos, sum_by, if◌then◌else◌, Result, ok, integrity, raise_if, AllRows, ◌≡◌,
}
use rezorpay_pro.Stock.{Stock, LevelKey, same_key}
use rezorpay_pro.Stock.Checks.{flush, level_at}

pub data CustomerPurchaseOrderStatus : Type 0 where
  draft received partial invoiced cancelled : CustomerPurchaseOrderStatus

pub record LpoItem : Type 0 where
  pub product_id : Option ℕ
  pub quantity : ℤ
  pub quantity_delivered : ℤ

pub record CustomerPurchaseOrder : Type 0 where
  pub workspace_id : ℕ
  pub status : CustomerPurchaseOrderStatus
  pub is_deleted : Bool
  pub items : Table ℕ LpoItem

pub data ReservationStatus : Type 0 where
  active dispatched cancelled expired : ReservationStatus

abbrev pub is_active : ReservationStatus → Bool
is_active active = true
is_active _ = false

abbrev pub is_dispatched : ReservationStatus → Bool
is_dispatched dispatched = true
is_dispatched _ = false

pub record StockReservation : Type 0 where
  pub workspace_id : ℕ
  pub customer_purchase_order_id : ℕ
  pub status : ReservationStatus
  pub expires_at : ℕ
  pub cancelled_at : Option ℕ
  pub cancellation_reason : Option String

-- `level` joins the three columns that locate the goods with the workspace of the reservation;
-- `customer_purchase_order_id` is that of the reservation too.
pub record StockReservationItem : Type 0 where
  pub reservation_id : ℕ
  pub customer_purchase_order_id : ℕ
  pub customer_purchase_order_item_id : ℕ
  pub level : LevelKey
  pub quantity : ℤ
  pub quantity_consumed : ℤ
  pub status : ReservationStatus
  pub dispatched_at : Option ℕ
  pub created_at : ℕ

-- The rows that the reservation service reads and writes.
pub record ReservationStore : Type 0 where
  pub stock : Stock
  pub lpos : Table ℕ CustomerPurchaseOrder
  pub reservations : Table ℕ StockReservation
  pub items : Table ℕ StockReservationItem

-- `quantity - quantity_consumed`.
unfoldable pub remaining : StockReservationItem → ℤ
remaining item = item.quantity -ℤ item.quantity_consumed

-- What an item still holds back: its remaining quantity while it is active.
unfoldable pub held : StockReservationItem → ℤ
unfolding remaining
held item = if is_active item.status then remaining item else zero_ℤ

-- The CHECK constraints of `stock_reservation_items`.
pub record IsItem (item : StockReservationItem) : Type 0 where
  pub quantity_positive : pos 1 ≤ℤ item.quantity
  pub consumed_nonneg : zero_ℤ ≤ℤ item.quantity_consumed
  pub consumed_bounded : item.quantity_consumed ≤ℤ item.quantity

unfoldable pub is_item : StockReservationItem → Bool
is_item item =
    ltb_ℤ zero_ℤ item.quantity
    && leb_ℤ zero_ℤ item.quantity_consumed
    && leb_ℤ item.quantity_consumed item.quantity

unfoldable pub all_items : Table ℕ StockReservationItem → Bool
unfolding is_item
all_items [] = true
all_items ((id, item) ∷ t) = is_item item && all_items t

-- `session.flush()` with the rows of this service pending.
unfoldable pub flush_store : ReservationStore → Result ReservationStore
unfolding all_items flush
flush_store s = do
  raise_if (not (all_items s.items)) integrity
  stock ← flush s.stock
  ok (record s { stock = stock })

-- The sum over the active items of one (workspace, product, warehouse, bin).
unfoldable pub held_at : LevelKey → ReservationStore → ℤ
unfolding held
held_at k s = sum_by (λ id item. if same_key item.level k then held item else zero_ℤ) s.items

-- The invariant of the service: the reserved column of every row is the sum over its active items.
abbrev pub IsBalanced : ReservationStore → Type 0
IsBalanced s = (k : LevelKey) → (level_at k s.stock).reserved ≡ held_at k s

abbrev pub HasItems : ReservationStore → Type 0
HasItems s = AllRows IsItem s.items
