-- ===== src/Reservation/Exhaust.antt =====
-- The loop of `release_for_dispatch` (services/stock_reservation_service.py), to its end: the quantity
-- is used up, or no row has anything left.
use rezorpay_pro.Common.{
  ℕ, ℤ, zero_ℤ, pos, true, some, List, [], ◌∷◌, ◌≡◌, ◌≤ℤ◌, leb_ℤ, nat_eq, lookup, ok, >>=-eq-ok,
  ok_injective, ◌⊎◌, arith, sym, ◌∙◌, inl, inr, Bool-cases, Option-cases, subst, some_inj, All,
}
use rezorpay_pro.Reservation.{StockReservationItem, ReservationStore, remaining}
use rezorpay_pro.Reservation.Dispatch.{Consuming, consume_round, consume}
use rezorpay_pro.Reservation.Consume.{IsOpen}
use rezorpay_pro.Reservation.Fifo.{Progress, IsSpent, Advanced, consume_round-Advanced}

-- The loop over rows that are open ends in step, with the quantity used up or nothing left of any
-- row that it was given.
pub record Ended (asked total : ℤ) (ids : List ℕ) (c c' : Consuming) : Type 0 where
  pub progress : Progress asked total c'
  pub spends : (j : ℕ) → IsSpent c.store j → IsSpent c'.store j
  pub done : (c'.qty ≤ℤ zero_ℤ) ⊎ All (IsSpent c'.store) ids

All-IsOpen :
    (s t : ReservationStore) (ids : List ℕ)
    → ((j : ℕ) → IsOpen s j → IsOpen t j)
    → All (IsOpen s) ids
    → All (IsOpen t) ids
All-IsOpen s t [] f h = tt
All-IsOpen s t (id ∷ ids) f h = (f id h.0, All-IsOpen s t ids f h.1)

-- A row with nothing left may stand in front.
skip :
    (asked total : ℤ) (id : ℕ) (ids : List ℕ) (c c' : Consuming)
    → IsSpent c.store id
    → Ended asked total ids c c'
    → Ended asked total (id ∷ ids) c c'
skip asked total id ids c c' spent e = record {
  progress = e.progress;
  spends = e.spends;
  done = elim e.done [ inl used_up ↦ inl used_up | inr all ↦ inr (e.spends id spent, all) ];
}

-- A round may come first.
after_round :
    (asked total : ℤ) (id : ℕ) (ids : List ℕ) (c t c' : Consuming)
    → Advanced asked total id c t
    → pos 1 ≤ℤ t.qty
    → Ended asked total ids t c'
    → Ended asked total (id ∷ ids) c c'
after_round asked total id ids c t c' r more e = record {
  progress = e.progress;
  spends = λ j x. e.spends j (r.spends j x);
  done = elim e.done [ inl used_up ↦ inl used_up | inr all ↦ inr (e.spends id (r.used more), all) ];
}

last_round :
    (asked total : ℤ) (id : ℕ) (ids : List ℕ) (c c' : Consuming)
    → Advanced asked total id c c'
    → leb_ℤ c'.qty zero_ℤ ≡ true
    → Progress asked total c
    → Ended asked total (id ∷ ids) c c'
last_round asked total id ids c c' r used_up g = record {
  progress = r.progress g;
  spends = r.spends;
  done = inl (ground arith);
}

nothing_remains :
    (s : ReservationStore) (id : ℕ) (item : StockReservationItem)
    → lookup id s.items ≡ some item
    → leb_ℤ (remaining item) zero_ℤ ≡ true
    → IsSpent s id
nothing_remains s id item found empty other there =
    subst (λ (x : StockReservationItem). remaining x ≤ℤ zero_ℤ) (some_inj (sym found ∙ there))
      (ground (arith, empty))

pub consume-Ended :
    (asked total : ℤ) (now : ℕ) (ids : List ℕ) (c c' : Consuming)
    → consume now ids c ≡ ok c'
    → pos 1 ≤ℤ c.qty
    → All (IsOpen c.store) ids
    → Progress asked total c
    → Ended asked total ids c c'
unfolding consume
consume-Ended asked total now [] c c' h more opens g =
    subst (Ended asked total [] c) (ok_injective h)
      (record { progress = g; spends = λ j x. x; done = inr tt })
consume-Ended asked total now (id ∷ ids) c c' h more opens g =
    elim (Option-cases (lookup id c.store.items)) [
      | inl absent ↦
          skip asked total id ids c c' (λ item there. cc)
            (consume-Ended asked total now ids c c' (rw (absent, consume) at h) more opens.1 g)
      | inr (item, found) ↦ elim (Bool-cases (leb_ℤ (remaining item) zero_ℤ)) [
        | inl empty ↦ skip asked total id ids c c' (nothing_remains c.store id item found empty) (
            consume-Ended asked total now ids c c' (rw (found, empty, consume) at h) more opens.1 g)
        | inr left ↦
            let (t, round, h₁) =
              >>=-eq-ok (consume_round now id item c) _ (rw (found, left, consume) at h) in
            let r =
              consume_round-Advanced asked total now id item c t found left
                (opens.0 item found left) more round in
            elim (Bool-cases (leb_ℤ t.qty zero_ℤ)) [
              | inl used_up ↦
                  subst (Ended asked total (id ∷ ids) c) (ok_injective (rw used_up at h₁))
                    (last_round asked total id ids c t r used_up g)
              | inr still ↦ after_round asked total id ids c t c' r (ground arith) (
                  consume-Ended asked total now ids t c' (rw still at h₁) (ground arith)
                    (All-IsOpen c.store t.store ids r.opens opens.1) (r.progress g))
            ]
      ]
    ]
