-- ===== src/Reservation/Dispatch.antt =====
-- services/stock_reservation_service.py: `release_for_dispatch`, which consumes the reservations of
-- an order line first in, first out, and `_refresh_header_statuses`.
use rezorpay_pro.Common.{
  ℕ, ℤ, zero_ℤ, Bool, true, false, not, ◌&&◌, none, some, List, [], ◌∷◌, Table, nat_eq, ◌==◌, ltb_ℤ,
  leb_ℤ, ◌-ℤ◌, ◌+ℤ◌, min_ℤ, lookup, put, select, if◌then◌else◌, Result, ok, ◌>>=◌, for_each, sorted,
  map,
}
use rezorpay_pro.Reservation.{
  dispatched, is_active, is_dispatched, StockReservationItem, ReservationStore, remaining,
}
use rezorpay_pro.Reservation.Release.{unreserve, items_of, set_header}

-- The rows that the query selects.
abbrev pub is_candidate : ℕ → ℕ → ℕ → StockReservationItem → Bool
is_candidate workspace_id cpo_item_id product_id item =
    item.level.workspace_id == workspace_id
    && (item.customer_purchase_order_item_id == cpo_item_id
        && (item.level.product_id == product_id
            && (is_active item.status && ltb_ℤ item.quantity_consumed item.quantity)))

unfoldable pub candidates :
    ℕ → ℕ → ℕ → Table ℕ StockReservationItem → List (ℕ × StockReservationItem)
unfolding select
candidates workspace_id cpo_item_id product_id =
    select (is_candidate workspace_id cpo_item_id product_id)

-- `order_by(created_at.asc(), id.asc())`: a stable sort by id, then by time.
unfoldable pub in_order : List (ℕ × StockReservationItem) → List ℕ
in_order rows = map (λ row. row.0) (sorted (λ row. row.1.created_at) (sorted (λ row. row.0) rows))

-- The writes to the item: fully consumed, it is dispatched.
unfoldable pub consumed_by : ℕ → ℤ → StockReservationItem → StockReservationItem
consumed_by now take item =
    let consumed = item.quantity_consumed +ℤ take in
    if leb_ℤ item.quantity consumed
    then record item { quantity_consumed = consumed; status = dispatched; dispatched_at = some now }
    else record item { quantity_consumed = consumed }

-- One round takes `take` of the item under the lock of its row.
unfoldable pub consume_item :
    ℕ → ℕ → ℤ → StockReservationItem → ReservationStore → Result ReservationStore
unfolding unreserve consumed_by
consume_item now id take item s = do
  stock ← unreserve item.level take s.stock
  ok (record s { stock = stock; items = put id (consumed_by now take item) s.items })

-- What the loop carries: the quantity consumed, that still to ship, the headers impacted, the rows.
pub record Consuming : Type 0 where
  pub consumed : ℤ
  pub qty : ℤ
  pub impacted : List ℕ
  pub store : ReservationStore

unfoldable pub take_of : StockReservationItem → ℤ → ℤ
unfolding remaining
take_of item qty = min_ℤ (remaining item) qty

unfoldable pub consume_round : ℕ → ℕ → StockReservationItem → Consuming → Result Consuming
unfolding consume_item take_of
consume_round now id item c = do
  let take = take_of item c.qty
  s ← consume_item now id take item c.store
  ok (record {
    consumed = c.consumed +ℤ take;
    qty = c.qty -ℤ take;
    impacted = item.reservation_id ∷ c.impacted;
    store = s;
  })

-- The loop: a row with nothing remaining is passed over, and the loop ends once the quantity to
-- ship is used up.
unfoldable pub consume : ℕ → List ℕ → Consuming → Result Consuming
unfolding consume_round remaining
consume now [] c = ok c
consume now (id ∷ ids) c = elim (lookup id c.store.items) [
  | none ↦ consume now ids c
  | some item ↦ elim (leb_ℤ (remaining item) zero_ℤ) [
    | true ↦ consume now ids c
    | false ↦ consume_round now id item c >>= λ c'. elim (leb_ℤ c'.qty zero_ℤ) [
      | true ↦ ok c'
      | false ↦ consume now ids c'
    ]
  ]
]

unfoldable pub all_dispatched : List ℕ → Table ℕ StockReservationItem → Bool
all_dispatched [] t = true
all_dispatched (id ∷ ids) t =
    elim (lookup id t) [ none ↦ false | some item ↦ is_dispatched item.status ]
    && all_dispatched ids t

abbrev pub is_empty : List ℕ → Bool
is_empty [] = true
is_empty (x ∷ xs) = false

-- The rounds of `_refresh_header_statuses`: a header with items, all of them dispatched, is too.
unfoldable pub refresh_header : ℕ → ReservationStore → Result ReservationStore
unfolding items_of all_dispatched set_header
refresh_header id s =
    let ids = items_of id s.items in
    elim (lookup id s.reservations) [
      | none ↦ ok s
      | some header ↦
          if not (is_empty ids) && all_dispatched ids s.items
          then ok (set_header id (record header { status = dispatched }) s)
          else ok s
    ]

unfoldable pub release_for_dispatch :
    ℕ → ℕ → ℕ → ℤ → ℕ → ReservationStore → Result (ℤ × ReservationStore)
unfolding candidates in_order consume refresh_header
release_for_dispatch workspace_id cpo_item_id product_id qty now s =
    if leb_ℤ qty zero_ℤ
    then ok (zero_ℤ, s)
    else consume now (in_order (candidates workspace_id cpo_item_id product_id s.items))
        (record { consumed = zero_ℤ; qty = qty; impacted = []; store = s })
      >>= λ c. for_each refresh_header c.impacted c.store >>= λ s'. ok (c.consumed, s')
