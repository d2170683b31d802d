-- ===== src/Reservation/Create.antt =====
-- services/stock_reservation_service.py: `create_reservation`, with the load of the order
-- (`load_lpo` of services/delivery_note_support.py). Fresh uuids come with the request.
use rezorpay_pro.Common.{
  ℕ, ℤ, zero_ℤ, Bool, true, false, not, ◌&&◌, Option, none, some, List, Table, nat_eq, ◌==◌, ltb_ℤ,
  ◌-ℤ◌, ◌+ℤ◌, ◌+◌, lookup, put, sum_by, if◌then◌else◌, Result, ok, http, integrity, not_found,
  validation_error, invalid_state, ◌>>=◌, ◌>>◌, raise_if, or_raise, for_each,
}
use rezorpay_pro.Stock.{LevelKey, save_level, available}
use rezorpay_pro.Stock.Locate.{lock_or_create_level, only_if, load_warehouse, resolve_header_bin}
use rezorpay_pro.Reservation.{
  CustomerPurchaseOrderStatus, CustomerPurchaseOrder, LpoItem, active, StockReservation,
  StockReservationItem, ReservationStore, held, flush_store,
}

-- `RESERVATION_TTL_DAYS`; the clock counts days here.
abbrev pub reservation_ttl_days : ℕ
reservation_ttl_days = 7

-- `lpo.status in LPO_SHIPPABLE`.
abbrev pub is_shippable : CustomerPurchaseOrderStatus → Bool
is_shippable CustomerPurchaseOrderStatus.draft = false
is_shippable CustomerPurchaseOrderStatus.cancelled = false
is_shippable _ = true

unfoldable pub load_lpo : ℕ → ℕ → ReservationStore → Result CustomerPurchaseOrder
load_lpo lpo_id workspace_id s = do
  lpo ←
      or_raise
        (only_if (λ l. l.workspace_id == workspace_id && not l.is_deleted) (lookup lpo_id s.lpos))
        (http 404 not_found)
  raise_if (not (is_shippable lpo.status)) (http 403 invalid_state)
  ok lpo

-- `reserved_map`, with the default of its `get`: what is held for a line of the order.
unfoldable pub active_remaining_by_cpo_item : ℕ → ℕ → ReservationStore → ℕ → ℤ
unfolding held
active_remaining_by_cpo_item workspace_id cpo_id s item_id =
    sum_by
      (λ id item.
        if item.level.workspace_id == workspace_id
          && (item.customer_purchase_order_id == cpo_id
              && item.customer_purchase_order_item_id == item_id)
        then held item
        else zero_ℤ)
      s.items

-- One row of the request, with the uuid that its item will get.
pub record RequestRow : Type 0 where
  pub customer_purchase_order_item_id : ℕ
  pub bin_id : Option ℕ
  pub quantity : ℤ
  pub new_id : ℕ

-- `reserved_map` and the rows, as the loop changes them.
pub record Reserving : Type 0 where
  pub reserved_map : ℕ → ℤ
  pub store : ReservationStore

abbrev pub is_present {ℓ} : {A : Type ℓ} → Option A → Bool
is_present none = false
is_present (some a) = true

-- The insert of an item, refused where its primary key is taken.
unfoldable pub add_item : ℕ → StockReservationItem → ReservationStore → Result ReservationStore
add_item id item s = do
  raise_if (is_present (lookup id s.items)) integrity
  ok (record s { items = put id item s.items })

-- The item that a row of the request becomes.
unfoldable pub new_item : ℕ → ℕ → ℕ → RequestRow → LevelKey → StockReservationItem
new_item header_id cpo_id now row key = record {
  reservation_id = header_id;
  customer_purchase_order_id = cpo_id;
  customer_purchase_order_item_id = row.customer_purchase_order_item_id;
  level = key;
  quantity = row.quantity;
  quantity_consumed = zero_ℤ;
  status = active;
  dispatched_at = none;
  created_at = now;
}

-- The part of a round behind its tests of the order line: the lock, the test of the stock, the two
-- writes.
unfoldable pub reserve_at :
    ℕ → ℕ → ℕ → RequestRow → LevelKey → ReservationStore → Result ReservationStore
unfolding lock_or_create_level available save_level add_item new_item
reserve_at header_id cpo_id now row key s = do
  (level, stock) ← lock_or_create_level key s.stock
  raise_if (ltb_ℤ (available level) row.quantity) (http 400 validation_error)
  add_item row.new_id (new_item header_id cpo_id now row key) (record s {
    stock = save_level key (record level { reserved = level.reserved +ℤ row.quantity }) stock;
  })

unfoldable pub reserve_row :
    ℕ → ℕ → ℕ → ℕ → ℕ → Table ℕ LpoItem → RequestRow → Reserving → Result Reserving
unfolding reserve_at resolve_header_bin
reserve_row workspace_id cpo_id warehouse_id header_id now lpo_items row r = do
  let item_id = row.customer_purchase_order_item_id
  item ← or_raise (lookup item_id lpo_items) (http 404 not_found)
  product ← or_raise item.product_id (http 400 validation_error)
  let undelivered = item.quantity -ℤ item.quantity_delivered
  let already = r.reserved_map item_id
  raise_if (ltb_ℤ undelivered (row.quantity +ℤ already)) (http 400 validation_error)
  bin ← resolve_header_bin warehouse_id workspace_id row.bin_id r.store.stock
  s ←
      reserve_at header_id cpo_id now row
        (record {
          workspace_id = workspace_id;
          product_id = product;
          warehouse_id = warehouse_id;
          bin_id = bin;
        })
        r.store
  ok (record {
    reserved_map = λ j. if j == item_id then already +ℤ row.quantity else r.reserved_map j;
    store = s;
  })

unfoldable pub add_header : ℕ → StockReservation → ReservationStore → Result ReservationStore
add_header id header s = do
  raise_if (is_present (lookup id s.reservations)) integrity
  ok (record s { reservations = put id header s.reservations })

unfoldable pub create_reservation :
    ℕ → ℕ → ℕ → ℕ → ℕ → List RequestRow → ReservationStore → Result ReservationStore
unfolding load_lpo load_warehouse active_remaining_by_cpo_item add_header reserve_row flush_store
create_reservation workspace_id cpo_id warehouse_id header_id now items s = do
  lpo ← load_lpo cpo_id workspace_id s
  w ← load_warehouse warehouse_id workspace_id s.stock
  let reserved_map = active_remaining_by_cpo_item workspace_id cpo_id s
  s' ←
      add_header header_id
        (record {
          workspace_id = workspace_id;
          customer_purchase_order_id = cpo_id;
          status = active;
          expires_at = now + reservation_ttl_days;
          cancelled_at = none;
          cancellation_reason = none;
        })
        s
  r ←
      for_each (reserve_row workspace_id cpo_id warehouse_id header_id now lpo.items) items
        (record { reserved_map = reserved_map; store = s' })
  flush_store r.store
