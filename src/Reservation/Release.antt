-- ===== src/Reservation/Release.antt =====
-- services/stock_reservation_service.py: `_release_items`, `cancel_reservation` and `expire_due`. The
-- objects of a loop are shared with the session, so each round reads its row anew.
use Prim.Native.String.{String}
use rezorpay_pro.Common.{
  ℕ, ℤ, zero_ℤ, Bool, not, ◌&&◌, Option, none, some, List, [], ◌∷◌, Table, nat_eq, ◌==◌, ltb_ℤ, leb,
  ◌-ℤ◌, max_ℤ, lookup, put, map, select, if◌then◌else◌, Result, ok, http, not_found, invalid_state,
  ◌>>=◌, ◌>>◌, raise_if, or_raise, for_each, suc,
}
use rezorpay_pro.Stock.{Stock, LevelKey, save_level}
use rezorpay_pro.Stock.Locate.{lock_or_create_level, only_if}
use rezorpay_pro.Reservation.{
  ReservationStatus, cancelled, expired, is_active, StockReservation, StockReservationItem,
  ReservationStore, remaining,
}

unfoldable pub get_visible : ℕ → ℕ → ReservationStore → Option StockReservation
get_visible reservation_id workspace_id s =
    only_if (λ r. r.workspace_id == workspace_id) (lookup reservation_id s.reservations)

-- The ids of `reservation.items`.
unfoldable pub items_of : ℕ → Table ℕ StockReservationItem → List ℕ
unfolding select
items_of reservation_id t =
    map (λ row. row.0) (select (λ item. item.reservation_id == reservation_id) t)

-- `level.reserved = max(ZERO, level.reserved - q)` under the lock of the item's row.
unfoldable pub unreserve : LevelKey → ℤ → Stock → Result Stock
unfolding save_level lock_or_create_level
unreserve key q s = do
  (level, s') ← lock_or_create_level key s
  ok (save_level key (record level { reserved = max_ℤ zero_ℤ (level.reserved -ℤ q) }) s')

-- What remains of an item goes back to its row; where nothing does, the row is not locked.
unfoldable pub release_stock : StockReservationItem → Stock → Result Stock
unfolding unreserve remaining
release_stock item s =
    if ltb_ℤ zero_ℤ (remaining item) then unreserve item.level (remaining item) s else ok s

-- The body of the loop for an item that is active.
unfoldable pub release_active :
    ReservationStatus → ℕ → StockReservationItem → ReservationStore → Result ReservationStore
unfolding release_stock
release_active release_status id item s = do
  stock ← release_stock item s.stock
  ok (record s { stock = stock; items = put id (record item { status = release_status }) s.items })

unfoldable pub release_item : ReservationStatus → ℕ → ReservationStore → Result ReservationStore
unfolding release_active
release_item release_status id s = elim (lookup id s.items) [
  | none ↦ ok s
  | some item ↦ if is_active item.status then release_active release_status id item s else ok s
]

unfoldable pub release_items : ReservationStatus → ℕ → ReservationStore → Result ReservationStore
unfolding release_item items_of
release_items release_status reservation_id s =
    for_each (release_item release_status) (items_of reservation_id s.items) s

unfoldable pub set_header : ℕ → StockReservation → ReservationStore → ReservationStore
set_header id header s = record s { reservations = put id header s.reservations }

unfoldable pub cancel_reservation :
    ℕ → ℕ → Option String → ℕ → ReservationStore → Result ReservationStore
unfolding get_visible release_items set_header
cancel_reservation workspace_id reservation_id reason now s = do
  reservation ← or_raise (get_visible reservation_id workspace_id s) (http 404 not_found)
  raise_if (not (is_active reservation.status)) (http 400 invalid_state)
  s' ← release_items cancelled reservation_id s
  ok (
      set_header reservation_id
        (record reservation {
          status = cancelled;
          cancelled_at = some now;
          cancellation_reason = reason;
        })
        s')

-- The headers that `expire_due` selects.
abbrev pub is_due : ℕ → ℕ → StockReservation → Bool
is_due workspace_id cutoff r =
    r.workspace_id == workspace_id && (is_active r.status && leb r.expires_at cutoff)

unfoldable pub due : ℕ → ℕ → Table ℕ StockReservation → List (ℕ × StockReservation)
unfolding select
due workspace_id cutoff = select (is_due workspace_id cutoff)

unfoldable pub expire_one : ℕ × StockReservation → ReservationStore → Result ReservationStore
unfolding release_items set_header
expire_one (id, r) s = do
  s' ← release_items expired id s
  ok (set_header id (record r { status = expired }) s')

abbrev pub count_of {ℓ} : {A : Type ℓ} → List A → ℕ
count_of [] = 0
count_of (x ∷ xs) = suc (count_of xs)

-- The number of reservations expired, and the rows behind the loop; `at` is the cutoff or the clock.
unfoldable pub expire_due : ℕ → ℕ → ReservationStore → Result (ℕ × ReservationStore)
unfolding due expire_one
expire_due workspace_id cutoff s = do
  let reservations = due workspace_id cutoff s.reservations
  s' ← for_each expire_one reservations s
  ok (count_of reservations, s')
