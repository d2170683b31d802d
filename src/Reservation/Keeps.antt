-- ===== src/Reservation/Keeps.antt =====
-- Cancelling and expiring reservations (services/stock_reservation_service.py) keeps the reserved
-- columns in step with the active items.
use Prim.Native.String.{String}
use rezorpay_pro.Common.{
  ℕ, zero_ℤ, true, false, not, Option, some, ◌≡◌, refl, ◌≤ℤ◌, ◌+ℤ◌, ltb_ℤ, nat_eq, lookup, put, ok,
  >>=-eq-ok, ok_injective, or_raise-eq-ok, raise_if-eq-ok, AllRows-put, AllRows-lookup, int_laws,
  ap, inl, inr, Bool-cases, Option-cases, subst, for_each, for_each_inv,
}
use rezorpay_pro.Stock.{Stock, InventoryLevel}
use rezorpay_pro.Stock.Checks.{level_at}
use rezorpay_pro.Reservation.{
  ReservationStatus, cancelled, expired, StockReservation, StockReservationItem, ReservationStore,
  IsItem, remaining, held, is_active, IsBalanced, HasItems, held_at,
}
use rezorpay_pro.Reservation.Release.{
  release_stock, release_active, release_item, release_items, items_of, set_header, get_visible,
  cancel_reservation, expire_one, expire_due, due,
}
use rezorpay_pro.Reservation.Balance.{
  Rewrites, Rewrites-none, unreserve-Rewrites, put-IsBalanced, held-le-reserved,
}

-- The reserved columns are the sums over the active items, and the items pass their constraints.
abbrev pub IsSound : ReservationStore → Type 0
IsSound s = IsBalanced s × HasItems s

pub held_of_active :
    (item : StockReservationItem) → is_active item.status ≡ true → held item ≡ remaining item
unfolding held
held_of_active item a = rw a refl

held_of_inactive :
    (item : StockReservationItem) → is_active item.status ≡ false → held item ≡ zero_ℤ
unfolding held
held_of_inactive item a = rw a refl

nothing_left :
    (item : StockReservationItem)
    → IsItem item
    → ltb_ℤ zero_ℤ (remaining item) ≡ false
    → remaining item ≡ zero_ℤ
unfolding remaining
nothing_left item i h = grind (int_laws, i)

-- The row that a release leaves: what the item held is no longer reserved there.
release_stock-Rewrites :
    (item : StockReservationItem) (s s' : Stock)
    → IsItem item
    → remaining item ≤ℤ (level_at item.level s).reserved
    → release_stock item s ≡ ok s'
    → (row : InventoryLevel) × Rewrites item.level row s s'
      × (row.reserved +ℤ remaining item ≡ (level_at item.level s).reserved)
unfolding release_stock
release_stock-Rewrites item s s' i covered h = elim (Bool-cases (ltb_ℤ zero_ℤ (remaining item))) [
  | inl some_left ↦ (
    _,
    unreserve-Rewrites item.level (remaining item) s s' (rw some_left at h) covered,
    grind int_laws,
  )
  | inr none_left ↦ (
    level_at item.level s,
    subst (Rewrites item.level (level_at item.level s) s) (ok_injective (rw none_left at h))
        (Rewrites-none item.level s),
    rw (nothing_left item i none_left) (grind int_laws),
  )
]

module _ (status : ReservationStatus) (closing : is_active status ≡ false) where
  -- An active item is closed, and its row no longer reserves what it held.
  close_item :
      (id : ℕ) (item : StockReservationItem) (s : ReservationStore) (row : InventoryLevel)
      (stock : Stock)
      → lookup id s.items ≡ some item
      → is_active item.status ≡ true
      → Rewrites item.level row s.stock stock
      → row.reserved +ℤ remaining item ≡ (level_at item.level s.stock).reserved
      → IsSound s
      → IsSound
          (record s { stock = stock; items = put id (record item { status = status }) s.items })
  close_item id item s row stock found a rewrites freed (inv, items) =
      let closed : StockReservationItem = record item { status = status } in
      let i : IsItem item = AllRows-lookup IsItem id item s.items items found in
      (
        put-IsBalanced item.level row s stock rewrites id closed refl item found refl
            (rw (held_of_active item a, held_of_inactive closed closing) (grind int_laws)) inv,
        AllRows-put IsItem id closed s.items items (record {
          quantity_positive = i.quantity_positive;
          consumed_nonneg = i.consumed_nonneg;
          consumed_bounded = i.consumed_bounded;
        }),
      )

  release_active-IsSound :
      (id : ℕ) (item : StockReservationItem) (s s' : ReservationStore)
      → lookup id s.items ≡ some item
      → is_active item.status ≡ true
      → release_active status id item s ≡ ok s'
      → IsSound s
      → IsSound s'
  unfolding release_active
  release_active-IsSound id item s s' found a h sound =
      let (stock, released, h₁) = >>=-eq-ok (release_stock item s.stock) _ h in
      let covered =
        rw (held_of_active item a) at (held-le-reserved s id item sound.1 sound.0 found) in
      let (row, rewrites, freed) =
        release_stock-Rewrites item s.stock stock
          (AllRows-lookup IsItem id item s.items sound.1 found) covered released in
      subst IsSound (ok_injective h₁) (close_item id item s row stock found a rewrites freed sound)

  release_item-IsSound :
      (id : ℕ) (s s' : ReservationStore) → release_item status id s ≡ ok s' → IsSound s → IsSound s'
  unfolding release_item
  release_item-IsSound id s s' h sound = elim (Option-cases (lookup id s.items)) [
    | inl absent ↦ subst IsSound (ok_injective (rw (absent, release_item) at h)) sound
    | inr (item, found) ↦ elim (Bool-cases (is_active item.status)) [
      | inl a ↦ release_active-IsSound id item s s' found a (rw (found, a, release_item) at h) sound
      | inr a ↦ subst IsSound (ok_injective (rw (found, a, release_item) at h)) sound
    ]
  ]

  release_items-IsSound :
      (id : ℕ) (s s' : ReservationStore)
      → release_items status id s ≡ ok s'
      → IsSound s
      → IsSound s'
  unfolding release_items
  release_items-IsSound id s s' h =
      for_each_inv IsSound (release_item status) release_item-IsSound (items_of id s.items) s s' h

-- The headers have no part in it.
pub set_header-IsSound :
    (id : ℕ) (header : StockReservation) (s : ReservationStore)
    → IsSound s
    → IsSound (set_header id header s)
unfolding set_header held_at
set_header-IsSound id header s sound = sound

-- Cancelling a reservation keeps the reserved column of every row equal to the sum over the active
-- items of that row, and the constraints of the items.
pub cancel_reservation-IsSound :
    (workspace_id reservation_id : ℕ) (reason : Option String) (now : ℕ) (s s' : ReservationStore)
    → cancel_reservation workspace_id reservation_id reason now s ≡ ok s'
    → IsSound s
    → IsSound s'
unfolding cancel_reservation
cancel_reservation-IsSound w r reason now s s' h sound =
    let (header, _, h₁) = or_raise-eq-ok (get_visible r w s) _ _ h in
    let (_, h₂) = raise_if-eq-ok (not (is_active header.status)) _ _ h₁ in
    let (t, released, h₃) = >>=-eq-ok (release_items cancelled r s) _ h₂ in
    subst IsSound (ok_injective h₃)
      (set_header-IsSound r _ t (release_items-IsSound cancelled refl r s t released sound))

expire_one-IsSound :
    (row : ℕ × StockReservation) (s s' : ReservationStore)
    → expire_one row s ≡ ok s'
    → IsSound s
    → IsSound s'
unfolding expire_one
expire_one-IsSound (id, header) s s' h sound =
    let (t, released, h₁) = >>=-eq-ok (release_items expired id s) _ h in
    subst IsSound (ok_injective h₁)
      (set_header-IsSound id _ t (release_items-IsSound expired refl id s t released sound))

-- The expiry of all reservations that are due keeps the reserved column of every row equal to the
-- sum over the active items of that row, and the constraints of the items.
pub expire_due-IsSound :
    (workspace_id cutoff count : ℕ) (s s' : ReservationStore)
    → expire_due workspace_id cutoff s ≡ ok (count, s')
    → IsSound s
    → IsSound s'
unfolding expire_due
expire_due-IsSound w cutoff count s s' h sound =
    let (t, looped, h₁) = >>=-eq-ok (for_each expire_one (due w cutoff s.reservations) s) _ h in
    subst IsSound (ap (λ (x : ℕ × ReservationStore). x.1) (ok_injective h₁)) (
      for_each_inv IsSound expire_one expire_one-IsSound (due w cutoff s.reservations) s t looped
        sound)
