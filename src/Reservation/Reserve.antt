-- ===== src/Reservation/Reserve.antt =====
-- Creating a reservation (services/stock_reservation_service.py) keeps the reserved columns in step
-- with the active items and promises no more than is available.
use rezorpay_pro.Common.{
  ℕ, ℤ, zero_ℤ, true, false, not, Option, none, some, List, [], ◌∷◌, ◌≡◌, refl, ◌≤ℤ◌, ◌+ℤ◌, ◌-ℤ◌,
  ltb_ℤ, Table, nat_eq, lookup, put, ok, >>=-eq-ok, ok_injective, or_raise-eq-ok, raise_if-eq-ok,
  AllRows, arith, int_laws, sym, ap, ◌∙◌, inl, inr, Bool-cases, subst, for_each, for_each_inv,
}
use rezorpay_pro.Stock.{Stock, LevelKey, InventoryLevel, save_level, available, same_key}
use rezorpay_pro.Stock.Locate.{
  lock_or_create_level, lock_or_create_level-Locked, Locked, load_warehouse, resolve_header_bin,
}
use rezorpay_pro.Stock.Checks.{
  level_at, level_at-save_level, Locked-level_at, flush, flush-eq-ok, HasChecks,
}
use rezorpay_pro.Reservation.{
  StockReservation, StockReservationItem, ReservationStore, IsItem, held, held_at, IsBalanced,
  HasItems, LpoItem, flush_store, all_items,
}
use rezorpay_pro.Reservation.Create.{
  RequestRow, Reserving, new_item, reserve_at, reserve_row, add_item, add_header, is_present,
  load_lpo, create_reservation,
}
use rezorpay_pro.Reservation.Balance.{Rewrites, add-IsBalanced}
use rezorpay_pro.Reservation.Keeps.{IsSound}

-- No row has more reserved and damaged than it has on hand.
abbrev pub IsCovered : ReservationStore → Type 0
IsCovered s = (k : LevelKey) → zero_ℤ ≤ℤ available (level_at k s.stock)

-- What the loop keeps: the reserved columns in step, and the stock covered if it was.
abbrev pub Keeps : ReservationStore → ReservationStore → Type 0
Keeps s s' = (IsBalanced s → IsBalanced s') × (IsCovered s → IsCovered s')

reserved_row : ℤ → InventoryLevel → InventoryLevel
reserved_row q level = record level { reserved = level.reserved +ℤ q }

-- The row of the key gains what is reserved.
reserve-Rewrites :
    (key : LevelKey) (q : ℤ) (s t : Stock) (level : InventoryLevel)
    → Locked key s level t
    → Rewrites key (reserved_row q (level_at key s)) s (save_level key (reserved_row q level) t)
reserve-Rewrites key q s t level lock k =
    let (row, rest) = Locked-level_at key s level t lock in
    rw (level_at-save_level, rest k, row) refl

available-reserved_row :
    (q : ℤ) (level : InventoryLevel)
    → ltb_ℤ (available level) q ≡ false
    → zero_ℤ ≤ℤ available (reserved_row q level)
unfolding available reserved_row
available-reserved_row q level h = grind int_laws

-- Rewriting one row by a row that is covered.
covered_after :
    (key : LevelKey) (row : InventoryLevel) (s t : Stock)
    → Rewrites key row s t
    → zero_ℤ ≤ℤ available row
    → ((k : LevelKey) → zero_ℤ ≤ℤ available (level_at k s))
    → (k : LevelKey) → zero_ℤ ≤ℤ available (level_at k t)
covered_after key row s t rewrites h all k = elim (Bool-cases (same_key key k)) [
  | inl same ↦ rw (rewrites k, same) h
  | inr other ↦ rw (rewrites k, other) (all k)
]

not_present : {A : Type 0} (o : Option A) → is_present o ≡ false → o ≡ none
not_present none h = refl
not_present (some a) h = cc

held-new_item :
    (header_id cpo_id now : ℕ) (row : RequestRow) (key : LevelKey)
    → held (new_item header_id cpo_id now row key) ≡ row.quantity
unfolding held new_item
held-new_item h c n row key = grind int_laws

module _ (header_id cpo_id now : ℕ) (row : RequestRow) (key : LevelKey) (s : ReservationStore) where
  -- The two writes of a round.
  reserved_store : InventoryLevel → Stock → ReservationStore
  reserved_store level t = record s {
    stock = save_level key (reserved_row row.quantity level) t;
    items = put row.new_id (new_item header_id cpo_id now row key) s.items;
  }

  reserved_store-Keeps :
      (level : InventoryLevel) (t : Stock)
      → Locked key s.stock level t
      → ltb_ℤ (available level) row.quantity ≡ false
      → lookup row.new_id s.items ≡ none
      → Keeps s (reserved_store level t)
  unfolding reserved_store reserved_row
  reserved_store-Keeps level t locked enough absent =
      let rewrites = reserve-Rewrites key row.quantity s.stock t level locked in
      let same = (Locked-level_at key s.stock level t locked).0 in
      (
        λ inv.
            add-IsBalanced key (reserved_row row.quantity (level_at key s.stock)) s
              (save_level key (reserved_row row.quantity level) t) rewrites row.new_id
              (new_item header_id cpo_id now row key) (unfold new_item in refl) absent
              (rw held-new_item refl) inv,
        λ all.
            covered_after key (reserved_row row.quantity (level_at key s.stock)) s.stock
              (save_level key (reserved_row row.quantity level) t) rewrites
              (available-reserved_row row.quantity _
                (subst (λ l. ltb_ℤ (available l) row.quantity ≡ false) same enough))
              all,
      )

  reserve_at-Keeps :
      (s' : ReservationStore) → reserve_at header_id cpo_id now row key s ≡ ok s' → Keeps s s'
  unfolding reserve_at add_item reserved_store reserved_row
  reserve_at-Keeps s' h =
      let ((level, t), lock, h₁) = >>=-eq-ok (lock_or_create_level key s.stock) _ h in
      let (enough, h₂) = raise_if-eq-ok (ltb_ℤ (available level) row.quantity) _ _ h₁ in
      let (free, h₃) = raise_if-eq-ok (is_present (lookup row.new_id s.items)) _ _ h₂ in
      subst (Keeps s) (ok_injective h₃) (
        reserved_store-Keeps level t (lock_or_create_level-Locked key s.stock level t lock) enough
          (not_present _ free))

Keeps-trans : (s t u : ReservationStore) → Keeps s t → Keeps t u → Keeps s u
Keeps-trans s t u a b = (λ inv. b.0 (a.0 inv), λ all. b.1 (a.1 all))

reserve_row-Keeps :
    (w c wh hid now : ℕ) (lines : Table ℕ LpoItem) (row : RequestRow) (r r' : Reserving)
    → reserve_row w c wh hid now lines row r ≡ ok r'
    → Keeps r.store r'.store
unfolding reserve_row
reserve_row-Keeps w c wh hid now lines row r r' h =
    let (item, _, h₁) = or_raise-eq-ok (lookup row.customer_purchase_order_item_id lines) _ _ h in
    let (product, _, h₂) = or_raise-eq-ok item.product_id _ _ h₁ in
    let (_, h₃) =
      raise_if-eq-ok
        (ltb_ℤ (item.quantity -ℤ item.quantity_delivered)
          (row.quantity +ℤ r.reserved_map row.customer_purchase_order_item_id))
        _ _ h₂ in
    let (bin, _, h₄) = >>=-eq-ok (resolve_header_bin wh w row.bin_id r.store.stock) _ h₃ in
    let (t, reserved, h₅) = >>=-eq-ok (reserve_at hid c now row _ r.store) _ h₄ in
    subst (λ (x : Reserving). Keeps r.store x.store) (ok_injective h₅)
      (reserve_at-Keeps hid c now row _ r.store t reserved)

add_header-Keeps :
    (id : ℕ) (header : StockReservation) (s s' : ReservationStore)
    → add_header id header s ≡ ok s'
    → Keeps s s'
unfolding add_header held_at
add_header-Keeps id header s s' h =
    let (_, h₁) = raise_if-eq-ok (is_present (lookup id s.reservations)) _ _ h in
    subst (Keeps s) (ok_injective h₁) (λ inv. inv, λ all. all)

all_items_sound : (t : Table ℕ StockReservationItem) → all_items t ≡ true → AllRows IsItem t
unfolding all_items AllRows
all_items_sound [] h = tt
all_items_sound ((id, item) ∷ t) h = (ground arith, all_items_sound t (ground arith))

flush_store-eq-ok :
    (s s' : ReservationStore) → flush_store s ≡ ok s' → (s' ≡ s) × HasItems s × HasChecks s.stock
unfolding flush_store
flush_store-eq-ok s s' h =
    let (good, h₁) = raise_if-eq-ok (not (all_items s.items)) _ _ h in
    let (stock, flushed, h₂) = >>=-eq-ok (flush s.stock) _ h₁ in
    let (same, checks) = flush-eq-ok s.stock stock flushed in
    (
      sym (ok_injective h₂) ∙ ap (λ (x : Stock). record s { stock = x }) same,
      all_items_sound s.items (ground (arith, good)),
      checks,
    )

-- What every round keeps relative to the start, the loop keeps.
loop-Keeps :
    (w c wh hid now : ℕ) (lines : Table ℕ LpoItem) (rows : List RequestRow) (r r' : Reserving)
    → for_each (reserve_row w c wh hid now lines) rows r ≡ ok r'
    → Keeps r.store r'.store
loop-Keeps w c wh hid now lines rows r r' h =
    for_each_inv (λ (x : Reserving). Keeps r.store x.store) (reserve_row w c wh hid now lines)
      (λ row x y step kept.
        Keeps-trans r.store x.store y.store kept
          (reserve_row-Keeps w c wh hid now lines row x y step))
      rows r r' h (λ inv. inv, λ all. all)

-- From a state in which the reserved columns are the sums over the active items and no row has more
-- reserved and damaged than on hand, a reservation that is created leaves both so, and its items
-- and levels pass their constraints.
pub create_reservation-IsSound :
    (workspace_id cpo_id warehouse_id header_id now : ℕ) (items : List RequestRow)
    (s s' : ReservationStore)
    → create_reservation workspace_id cpo_id warehouse_id header_id now items s ≡ ok s'
    → IsBalanced s
    → IsCovered s
    → IsSound s' × IsCovered s' × HasChecks s'.stock
unfolding create_reservation
create_reservation-IsSound w c wh hid now items s s' h inv all =
    let (lpo, _, h₁) = >>=-eq-ok (load_lpo c w s) _ h in
    let (_, _, h₂) = >>=-eq-ok (load_warehouse wh w s.stock) _ h₁ in
    let (t, added, h₃) = >>=-eq-ok (add_header hid _ s) _ h₂ in
    let (r, looped, h₄) =
      >>=-eq-ok (for_each (reserve_row w c wh hid now lpo.items) items _) _ h₃ in
    let (same, rows, checks) = flush_store-eq-ok r.store s' h₄ in
    let kept =
      Keeps-trans s t r.store (add_header-Keeps hid _ s t added)
        (loop-Keeps w c wh hid now lpo.items items _ r looped) in
    rw same ((kept.0 inv, rows), kept.1 all, checks)
