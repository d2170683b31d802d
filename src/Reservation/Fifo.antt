-- ===== src/Reservation/Fifo.antt =====
-- The loop of `release_for_dispatch` (services/stock_reservation_service.py) as a whole: it takes
-- what there is, up to the quantity that ships.
use rezorpay_pro.Common.{
  ℕ, ℤ, zero_ℤ, pos, true, false, some, ◌≡◌, refl, ◌≤ℤ◌, ◌+ℤ◌, ◌-ℤ◌, leb_ℤ, nat_eq, lookup, put, ok,
  >>=-eq-ok, ok_injective, lookup-put, ==_iff, ◌==◌, arith, int_laws, sym, ap, inl, inr, Bool-cases,
  subst, some_inj,
}
use rezorpay_pro.Reservation.{StockReservationItem, ReservationStore, remaining, is_active}
use rezorpay_pro.Reservation.Release.{unreserve}
use rezorpay_pro.Reservation.Dispatch.{consumed_by, consume_item, Consuming, take_of, consume_round}
use rezorpay_pro.Reservation.Keeps.{IsSound}
use rezorpay_pro.Reservation.Consume.{
  IsOpen, total_held, consume_item-IsSound, consume_item-total, consume_item-IsOpen,
}

-- What holds between two rounds, for the quantity asked and the total held at the start.
pub record Progress (asked total : ℤ) (c : Consuming) : Type 0 where
  pub sound : IsSound c.store
  pub split : c.consumed +ℤ c.qty ≡ asked
  pub shrunk : total_held c.store +ℤ c.consumed ≡ total
  pub taken : zero_ℤ ≤ℤ c.consumed
  pub rest : zero_ℤ ≤ℤ c.qty

-- Nothing remains of the row.
abbrev pub IsSpent : ReservationStore → ℕ → Type 0
IsSpent s id =
    (item : StockReservationItem) → lookup id s.items ≡ some item → remaining item ≤ℤ zero_ℤ

take_of_bounds :
    (item : StockReservationItem) (qty : ℤ)
    → leb_ℤ (remaining item) zero_ℤ ≡ false
    → pos 1 ≤ℤ qty
    → (zero_ℤ ≤ℤ take_of item qty)
      × (take_of item qty ≤ℤ remaining item)
      × (take_of item qty ≤ℤ qty)
unfolding take_of
take_of_bounds item qty left p = grind arith

-- Where something is still to ship, the row has been used up.
take_all :
    (item : StockReservationItem) (qty : ℤ)
    → pos 1 ≤ℤ qty -ℤ take_of item qty
    → take_of item qty ≡ remaining item
unfolding take_of
take_all item qty p = grind int_laws

remaining-consumed_by :
    (now : ℕ) (take : ℤ) (item : StockReservationItem)
    → remaining (consumed_by now take item) ≡ remaining item -ℤ take
unfolding remaining consumed_by
remaining-consumed_by now take item =
    elim (Bool-cases (leb_ℤ item.quantity (item.quantity_consumed +ℤ take))) [
      | inl full ↦ rw full (grind int_laws)
      | inr open_still ↦ rw open_still (grind int_laws)
    ]

below_zero : (r take : ℤ) → zero_ℤ ≤ℤ take → r ≤ℤ zero_ℤ → r -ℤ take ≤ℤ zero_ℤ
below_zero r take p h = omega int_laws

nothing : (r : ℤ) → r -ℤ r ≤ℤ zero_ℤ
nothing r = omega int_laws

module _ (now id : ℕ) (take : ℤ) (item : StockReservationItem) (s s' : ReservationStore)
    (found : lookup id s.items ≡ some item) (positive : zero_ℤ ≤ℤ take)
    (h : consume_item now id take item s ≡ ok s') where
  consume_item-items : s'.items ≡ put id (consumed_by now take item) s.items
  unfolding consume_item
  consume_item-items =
      let (stock, freed, h₁) = >>=-eq-ok (unreserve item.level take s.stock) _ h in
      ap (λ (x : ReservationStore). x.items) (sym (ok_injective h₁))

  rest_of :
      (j : ℕ) (other : StockReservationItem)
      → (id == j) ≡ true
      → lookup j s'.items ≡ some other
      → remaining other ≡ remaining item -ℤ take
  rest_of j other same there =
      rw (← some_inj (rw (consume_item-items, lookup-put, same) at there))
        (remaining-consumed_by now take item)

  consume_item-IsSpent : (j : ℕ) → IsSpent s j → IsSpent s' j
  consume_item-IsSpent j spent other there = elim (Bool-cases (id == j)) [
    | inl same ↦ rw (rest_of j other same there) (
        below_zero _ take positive
          (spent item (subst (λ i. lookup i s.items ≡ some item) ((==_iff id j).0 same) found)))
    | inr differs ↦ spent other (rw (consume_item-items, lookup-put, differs) at there)
  ]

  consume_item-used : take ≡ remaining item → IsSpent s' id
  consume_item-used all other there =
      rw (rest_of id other ((==_iff id id).1 refl) there, all) (nothing _)

-- A round that takes the smaller of what remains and what still ships.
pub record Advanced (asked total : ℤ) (id : ℕ) (c c' : Consuming) : Type 0 where
  pub progress : Progress asked total c → Progress asked total c'
  pub opens : (j : ℕ) → IsOpen c.store j → IsOpen c'.store j
  pub spends : (j : ℕ) → IsSpent c.store j → IsSpent c'.store j
  pub used : pos 1 ≤ℤ c'.qty → IsSpent c'.store id

module _ (asked total : ℤ) (now id : ℕ) (item : StockReservationItem) (c c' : Consuming)
    (found : lookup id c.store.items ≡ some item) (left : leb_ℤ (remaining item) zero_ℤ ≡ false)
    (a : is_active item.status ≡ true) (more : pos 1 ≤ℤ c.qty)
    (h : consume_round now id item c ≡ ok c') where
  pub consume_round-Advanced : Advanced asked total id c c'
  unfolding consume_round
  consume_round-Advanced =
      let take = take_of item c.qty in
      let (s, e, h₁) = >>=-eq-ok (consume_item now id take item c.store) _ h in
      let (p, q, r) = take_of_bounds item c.qty left more in
      subst (Advanced asked total id c) (ok_injective h₁) (record {
        progress = λ g. record {
          sound = consume_item-IsSound now id take item c.store s found a p q e g.sound;
          split = grind (int_laws, g.split);
          shrunk =
              grind
                (int_laws, g.shrunk, consume_item-total now id take item c.store s found a p q e);
          taken = omega (int_laws, p, g.taken);
          rest = omega (int_laws, r, g.rest);
        };
        opens = consume_item-IsOpen now id take item c.store s found a p q e;
        spends = consume_item-IsSpent now id take item c.store s found p e;
        used = λ m. consume_item-used now id take item c.store s found p e (take_all item c.qty m);
      })
