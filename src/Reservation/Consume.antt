-- ===== src/Reservation/Consume.antt =====
-- Shipping an order line consumes its reservations (`release_for_dispatch` of
-- services/stock_reservation_service.py): what is taken, and what the rows reserve afterwards.
use rezorpay_pro.Common.{
  ℕ, ℤ, zero_ℤ, true, false, some, ◌≡◌, refl, ◌≤ℤ◌, ◌+ℤ◌, ◌-ℤ◌, leb_ℤ, Table, nat_eq, lookup, put,
  sum_by, sum_by-put, ok, >>=-eq-ok, ok_injective, AllRows-put, AllRows-lookup, lookup-put, ◌==◌,
  arith, int_laws, sym, inl, inr, Bool-cases, subst, some_inj,
}
use rezorpay_pro.Stock.Checks.{level_at}
use rezorpay_pro.Reservation.{
  StockReservationItem, ReservationStore, IsItem, held, remaining, is_active,
}
use rezorpay_pro.Reservation.Release.{unreserve}
use rezorpay_pro.Reservation.Dispatch.{consumed_by, consume_item}
use rezorpay_pro.Reservation.Balance.{unreserve-Rewrites, put-IsBalanced, held-le-reserved}
use rezorpay_pro.Reservation.Keeps.{IsSound, held_of_active}

held-consumed_by :
    (now : ℕ) (take : ℤ) (item : StockReservationItem)
    → is_active item.status ≡ true
    → take ≤ℤ remaining item
    → held (consumed_by now take item) ≡ remaining item -ℤ take
unfolding held remaining consumed_by
held-consumed_by now take item a h =
    elim (Bool-cases (leb_ℤ item.quantity (item.quantity_consumed +ℤ take))) [
      | inl full ↦ rw full (grind int_laws)
      | inr open_still ↦ rw (open_still, a) (grind int_laws)
    ]

consumed_by-IsItem :
    (now : ℕ) (take : ℤ) (item : StockReservationItem)
    → IsItem item
    → zero_ℤ ≤ℤ take
    → take ≤ℤ remaining item
    → IsItem (consumed_by now take item)
unfolding remaining consumed_by
consumed_by-IsItem now take item i p h =
    elim (Bool-cases (leb_ℤ item.quantity (item.quantity_consumed +ℤ take))) [
      | inl full ↦ rw full (record {
        quantity_positive = i.quantity_positive;
        consumed_nonneg = grind (int_laws, i);
        consumed_bounded = grind (int_laws, i);
      })
      | inr open_still ↦ rw open_still (record {
        quantity_positive = i.quantity_positive;
        consumed_nonneg = grind (int_laws, i);
        consumed_bounded = grind (int_laws, i);
      })
    ]

consumed_by-level :
    (now : ℕ) (take : ℤ) (item : StockReservationItem)
    → (consumed_by now take item).level ≡ item.level
unfolding consumed_by
consumed_by-level now take item =
    elim (Bool-cases (leb_ℤ item.quantity (item.quantity_consumed +ℤ take))) [
      | inl full ↦ rw full refl
      | inr open_still ↦ rw open_still refl
    ]

-- What all active items hold together.
unfoldable pub total_held : ReservationStore → ℤ
total_held s = sum_by (λ id item. held item) s.items

-- A row with something remaining is active still.
abbrev pub IsOpen : ReservationStore → ℕ → Type 0
IsOpen s id =
    (item : StockReservationItem)
    → lookup id s.items ≡ some item
    → leb_ℤ (remaining item) zero_ℤ ≡ false
    → is_active item.status ≡ true

settle : (t t' h h' r take : ℤ) → t' +ℤ h ≡ t +ℤ h' → h ≡ r → h' ≡ r -ℤ take → t' +ℤ take ≡ t
settle t t' h h' r take e p q = grind int_laws

used_up : (q c : ℤ) → leb_ℤ q c ≡ true → leb_ℤ (q -ℤ c) zero_ℤ ≡ false → ⊥
used_up q c full left = grind int_laws

still_active :
    (now : ℕ) (take : ℤ) (item : StockReservationItem)
    → is_active item.status ≡ true
    → take ≤ℤ remaining item
    → leb_ℤ (remaining (consumed_by now take item)) zero_ℤ ≡ false
    → is_active (consumed_by now take item).status ≡ true
unfolding remaining consumed_by
still_active now take item a h left =
    elim (Bool-cases (leb_ℤ item.quantity (item.quantity_consumed +ℤ take))) [
      | inl full ↦
          absurd (used_up item.quantity (item.quantity_consumed +ℤ take) full (rw full at left))
      | inr open_still ↦ rw open_still a
    ]

consumed-IsOpen :
    (now id j : ℕ) (take : ℤ) (item : StockReservationItem) (t : Table ℕ StockReservationItem)
    (other : StockReservationItem)
    → is_active item.status ≡ true
    → take ≤ℤ remaining item
    → ((x : StockReservationItem)
        → lookup j t ≡ some x
        → leb_ℤ (remaining x) zero_ℤ ≡ false
        → is_active x.status ≡ true)
    → lookup j (put id (consumed_by now take item) t) ≡ some other
    → leb_ℤ (remaining other) zero_ℤ ≡ false
    → is_active other.status ≡ true
consumed-IsOpen now id j take item t other a covered was there left = elim (Bool-cases (id == j)) [
  | inl same ↦
      let e = some_inj (rw (lookup-put, same) at there) in
      subst (λ (x : StockReservationItem). is_active x.status ≡ true) e
        (still_active now take item a covered
          (subst (λ (x : StockReservationItem). leb_ℤ (remaining x) zero_ℤ ≡ false) (sym e) left))
  | inr differs ↦ was other (rw (lookup-put, differs) at there) left
]

module _ (now id : ℕ) (take : ℤ) (item : StockReservationItem) (s s' : ReservationStore)
    (found : lookup id s.items ≡ some item) (a : is_active item.status ≡ true)
    (positive : zero_ℤ ≤ℤ take) (covered : take ≤ℤ remaining item)
    (h : consume_item now id take item s ≡ ok s') where
  pub consume_item-IsSound : IsSound s → IsSound s'
  unfolding consume_item
  consume_item-IsSound sound =
      let (stock, freed, h₁) = >>=-eq-ok (unreserve item.level take s.stock) _ h in
      let enough : take ≤ℤ (level_at item.level s.stock).reserved =
        omega (
          arith,
          rw (held_of_active item a) at (held-le-reserved s id item sound.1 sound.0 found),
        ) in
      subst IsSound (ok_injective h₁) (
        put-IsBalanced item.level _ s stock
            (unreserve-Rewrites item.level take s.stock stock freed enough) id
            (consumed_by now take item) (consumed_by-level now take item) item found refl
            (rw (held_of_active item a, held-consumed_by now take item a covered) (grind int_laws))
            sound.0,
        AllRows-put IsItem id (consumed_by now take item) s.items sound.1 (
            consumed_by-IsItem now take item (AllRows-lookup IsItem id item s.items sound.1 found)
              positive covered),
      )

  pub consume_item-total : total_held s' +ℤ take ≡ total_held s
  unfolding consume_item total_held
  consume_item-total =
      let (stock, freed, h₁) = >>=-eq-ok (unreserve item.level take s.stock) _ h in
      subst (λ (x : ReservationStore). total_held x +ℤ take ≡ total_held s) (ok_injective h₁)
        (settle _ _ _ _ _ take
          (sum_by-put (λ k x. held x) id (consumed_by now take item) item s.items found)
          (held_of_active item a) (held-consumed_by now take item a covered))

  pub consume_item-IsOpen : (j : ℕ) → IsOpen s j → IsOpen s' j
  unfolding consume_item
  consume_item-IsOpen j was other there left =
      let (stock, freed, h₁) = >>=-eq-ok (unreserve item.level take s.stock) _ h in
      consumed-IsOpen now id j take item s.items other a covered was
        (subst (λ (x : ReservationStore). lookup j x.items ≡ some other) (sym (ok_injective h₁))
          there)
        left
