-- ===== src/Tests/ReservationRuns.antt =====
-- Reservations (services/stock_reservation_service.py) on the small shop: an order line of four
-- hundred hundredths is reserved in part, then cancelled, expired or shipped.
use rezorpay_pro.Common.{
  ℕ, ℤ, zero_ℤ, pos, false, none, some, [], ◌∷◌, ◌≡◌, refl, arith, ok, lookup, put, ◌-ℤ◌, ◌+ℤ◌,
  sum_by, for_each, select, sorted,
}
use rezorpay_pro.Stock.{available, same_key, save_level}
use rezorpay_pro.Stock.Locate.{
  lock_or_create_level, load_warehouse, resolve_header_bin, first_active_bin, first_by_code,
  load_bin, is_bin_of,
}
use rezorpay_pro.Stock.Checks.{HasChecks, level_at, flush, all_stored}
use rezorpay_pro.Reservation.{
  CustomerPurchaseOrder, received, ReservationStore, IsBalanced, held_at, remaining, flush_store,
  all_items, is_item,
}
use rezorpay_pro.Reservation.Release.{
  cancel_reservation, expire_due, get_visible, release_items, release_item, release_active,
  release_stock, unreserve, items_of, set_header, due, expire_one,
}
use rezorpay_pro.Reservation.Create.{
  RequestRow, create_reservation, load_lpo, active_remaining_by_cpo_item, add_header, add_item,
  new_item, reserve_at, reserve_row,
}
use rezorpay_pro.Reservation.Dispatch.{
  release_for_dispatch, candidates, in_order, consume, consume_round, consume_item, consumed_by,
  take_of, refresh_header, all_dispatched,
}
use rezorpay_pro.Reservation.Keeps.{IsSound, cancel_reservation-IsSound, expire_due-IsSound}
use rezorpay_pro.Reservation.Reserve.{IsCovered, create_reservation-IsSound}
use rezorpay_pro.Reservation.Ship.{Dispatched, release_for_dispatch-Dispatched}
use rezorpay_pro.Tests.Shop.{value_of, shop}

abbrev order : CustomerPurchaseOrder
order = record {
  workspace_id = 1;
  status = received;
  is_deleted = false;
  items =
      (20, record { product_id = some 4; quantity = pos 400; quantity_delivered = zero_ℤ }) ∷ [];
}

abbrev start : ReservationStore
start = record { stock = shop; lpos = (10, order) ∷ []; reservations = []; items = [] }

abbrev row : RequestRow
row = record {
  customer_purchase_order_item_id = 20;
  bin_id = none;
  quantity = pos 300;
  new_id = 31;
}

abbrev reserved : ReservationStore
reserved = value_of start (create_reservation 1 10 2 30 100 (row ∷ []) start)

reserving : create_reservation 1 10 2 30 100 (row ∷ []) start ≡ ok reserved
unfolding create_reservation load_lpo load_warehouse active_remaining_by_cpo_item add_header
    add_item new_item reserve_at reserve_row flush_store all_items is_item flush all_stored
    resolve_header_bin first_active_bin first_by_code load_bin is_bin_of lock_or_create_level
    available save_level lookup put same_key ◌-ℤ◌ ◌+ℤ◌ sum_by for_each
reserving = refl

start-IsBalanced : IsBalanced start
unfolding level_at held_at lookup sum_by same_key
start-IsBalanced k = ground arith

start-IsCovered : IsCovered start
unfolding level_at available lookup same_key ◌-ℤ◌
start-IsCovered k = ground arith

reserved-IsSound : IsSound reserved
reserved-IsSound =
    (create_reservation-IsSound 1 10 2 30 100 (row ∷ []) start reserved reserving start-IsBalanced
      start-IsCovered).0

create_reservation-IsSound_example :
    IsSound reserved × IsCovered reserved × HasChecks reserved.stock
create_reservation-IsSound_example =
    create_reservation-IsSound 1 10 2 30 100 (row ∷ []) start reserved reserving start-IsBalanced
      start-IsCovered

abbrev given_up : ReservationStore
given_up = value_of start (cancel_reservation 1 30 none 101 reserved)

cancelling : cancel_reservation 1 30 none 101 reserved ≡ ok given_up
unfolding cancel_reservation get_visible release_items release_item release_active release_stock
    unreserve items_of set_header for_each select remaining create_reservation lock_or_create_level
    ◌-ℤ◌ ◌+ℤ◌ sum_by same_key put lookup
cancelling = refl

cancel_reservation-IsSound_example : IsSound given_up
cancel_reservation-IsSound_example =
    cancel_reservation-IsSound 1 30 none 101 reserved given_up cancelling reserved-IsSound

abbrev lapsed : ℕ × ReservationStore
lapsed = value_of (0, start) (expire_due 1 107 reserved)

expiring : expire_due 1 107 reserved ≡ ok lapsed
unfolding expire_due due expire_one release_items release_item release_active release_stock
    unreserve items_of set_header for_each select remaining create_reservation lock_or_create_level
    ◌-ℤ◌ ◌+ℤ◌ sum_by same_key put lookup
expiring = refl

expire_due-IsSound_example : IsSound lapsed.1
expire_due-IsSound_example =
    expire_due-IsSound 1 107 lapsed.0 reserved lapsed.1 expiring reserved-IsSound

abbrev sent : ℤ × ReservationStore
sent = value_of (zero_ℤ, start) (release_for_dispatch 1 20 4 (pos 200) 102 reserved)

sending : release_for_dispatch 1 20 4 (pos 200) 102 reserved ≡ ok sent
unfolding release_for_dispatch candidates in_order consume consume_round consume_item consumed_by
    take_of refresh_header all_dispatched unreserve items_of set_header for_each select sorted
    remaining create_reservation lock_or_create_level ◌-ℤ◌ ◌+ℤ◌ sum_by same_key put lookup
sending = refl

release_for_dispatch-Dispatched_example :
    Dispatched (pos 200) (in_order (candidates 1 20 4 reserved.items)) reserved sent.0 sent.1
release_for_dispatch-Dispatched_example =
    release_for_dispatch-Dispatched 1 20 4 102 (pos 200) sent.0 reserved sent.1 sending
      (ground arith) reserved-IsSound
