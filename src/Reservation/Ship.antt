-- ===== src/Reservation/Ship.antt =====
-- `release_for_dispatch` of services/stock_reservation_service.py from end to end.
use rezorpay_pro.Common.{
  ℕ, ℤ, zero_ℤ, pos, true, false, not, List, [], ◌∷◌, ◌≡◌, refl, ◌≤ℤ◌, ◌+ℤ◌, leb_ℤ, nat_eq, lookup,
  ok, >>=-eq-ok, ok_injective, ◌⊎◌, ◌&&◌, arith, int_laws, sym, ◌∙◌, inl, inr, Bool-cases,
  Option-cases, subst, some_inj, All, All-sorted, map, select-all, for_each, for_each_inv,
}
use rezorpay_pro.Reservation.{StockReservationItem, StockReservation, ReservationStore, is_active}
use rezorpay_pro.Reservation.Release.{items_of, set_header}
use rezorpay_pro.Reservation.Dispatch.{
  Consuming, consume, candidates, is_candidate, in_order, refresh_header, release_for_dispatch,
  is_empty, all_dispatched,
}
use rezorpay_pro.Reservation.Keeps.{IsSound, set_header-IsSound}
use rezorpay_pro.Reservation.Consume.{IsOpen, total_held}
use rezorpay_pro.Reservation.Fifo.{IsSpent}
use rezorpay_pro.Reservation.Exhaust.{Ended, consume-Ended}

same_store : (s s' : ReservationStore) → s ≡ s' → (s'.items ≡ s.items) × (IsSound s → IsSound s')
same_store s s' e = rw (← e) (refl, λ x. x)

same_items :
    (s s' : ReservationStore) (id : ℕ) (header : StockReservation)
    → set_header id header s ≡ s'
    → (s'.items ≡ s.items) × (IsSound s → IsSound s')
unfolding set_header
same_items s s' id header e = rw (← e) (refl, set_header-IsSound id header s)

All-ids :
    (P : ℕ → Type 0) (rows : List (ℕ × StockReservationItem))
    → All (λ row. P row.0) rows
    → All P (map (λ row. row.0) rows)
All-ids P [] h = tt
All-ids P (row ∷ rows) h = (h.0, All-ids P rows h.1)

candidate_active :
    (w c p : ℕ) (item : StockReservationItem)
    → is_candidate w c p item ≡ true
    → is_active item.status ≡ true
candidate_active w c p item h = ground arith

-- The rows that the query selects are open, in whatever order.
candidates-IsOpen :
    (w c p : ℕ) (s : ReservationStore) → All (IsOpen s) (in_order (candidates w c p s.items))
unfolding in_order candidates
candidates-IsOpen w c p s = All-ids (IsOpen s) _ (
    All-sorted (λ row. IsOpen s row.0) (λ row. row.1.created_at) _
      (All-sorted (λ row. IsOpen s row.0) (λ row. row.0) _
        (select-all (λ id v. IsOpen s id) (is_candidate w c p) s.items
          (λ id v found passes item there left.
            subst (λ (x : StockReservationItem). is_active x.status ≡ true)
              (some_inj (sym found ∙ there)) (candidate_active w c p v passes)))))

-- The statuses of the headers have no part in it.
refresh_header-items :
    (id : ℕ) (s s' : ReservationStore)
    → refresh_header id s ≡ ok s'
    → (s'.items ≡ s.items) × (IsSound s → IsSound s')
unfolding refresh_header
refresh_header-items id s s' h = elim (Option-cases (lookup id s.reservations)) [
  | inl absent ↦ same_store s s' (ok_injective (rw (absent, refresh_header) at h))
  | inr (header, found) ↦
      elim (Bool-cases
        (not (is_empty (items_of id s.items)) && all_dispatched (items_of id s.items) s.items)) [
          | inl all ↦ same_items s s' id _ (ok_injective (rw (found, all, refresh_header) at h))
          | inr some_left ↦
              same_store s s' (ok_injective (rw (found, some_left, refresh_header) at h))
        ]
]

-- What a dispatch has done, for the rows that its query selects.
pub record Dispatched (asked : ℤ) (ids : List ℕ) (s : ReservationStore) (consumed : ℤ)
    (s' : ReservationStore) : Type 0 where
  pub sound : IsSound s'
  pub nonneg : zero_ℤ ≤ℤ consumed
  pub bounded : consumed ≤ℤ asked
  pub conserved : total_held s' +ℤ consumed ≡ total_held s
  pub complete : (consumed ≡ asked) ⊎ All (IsSpent s') ids

is_positive : (q : ℤ) → pos 1 ≤ℤ q → leb_ℤ q zero_ℤ ≡ false
is_positive q h = ground arith

refreshed_items :
    (ids : List ℕ) (s s' : ReservationStore)
    → for_each refresh_header ids s ≡ ok s'
    → (s'.items ≡ s.items) × (IsSound s → IsSound s')
refreshed_items ids s s' h =
    for_each_inv (λ (x : ReservationStore). (x.items ≡ s.items) × (IsSound s → IsSound x))
      refresh_header
      (λ id x y e k.
        let (same, keep) = refresh_header-items id x y e in (same ∙ k.0, λ g. keep (k.1 g)))
      ids s s' h (refl, λ g. g)

All-IsSpent :
    (s t : ReservationStore) (ids : List ℕ)
    → t.items ≡ s.items
    → All (IsSpent s) ids
    → All (IsSpent t) ids
All-IsSpent s t [] e h = tt
All-IsSpent s t (id ∷ ids) e h = (λ item there. h.0 item (rw e at there), All-IsSpent s t ids e h.1)

Dispatched-of :
    (asked : ℤ) (ids : List ℕ) (s : ReservationStore) (end : Consuming) (t : ReservationStore)
    {start : Consuming}
    → Ended asked (total_held s) ids start end
    → (t.items ≡ end.store.items) × (IsSound end.store → IsSound t)
    → Dispatched asked ids s end.consumed t
unfolding total_held
Dispatched-of asked ids s end t e (same, keep) =
    let g = e.progress in
    record {
      sound = keep g.sound;
      nonneg = g.taken;
      bounded = grind (int_laws, g.split, g.rest);
      conserved = rw same g.shrunk;
      complete = elim e.done [
        | inl used_up ↦ inl (grind (int_laws, g.split, g.rest))
        | inr all ↦ inr (All-IsSpent end.store t ids same all)
      ];
    }

-- With a positive quantity to ship, from a sound state, a dispatch consumes zero or more and no more
-- than that; what it consumes is what the active items hold less; it stops short of the quantity
-- only when nothing remains of any row that its query selects; and the reserved columns stay in
-- step with the active items.
pub release_for_dispatch-Dispatched :
    (workspace_id cpo_item_id product_id now : ℕ) (qty consumed : ℤ) (s s' : ReservationStore)
    → release_for_dispatch workspace_id cpo_item_id product_id qty now s ≡ ok (consumed, s')
    → pos 1 ≤ℤ qty
    → IsSound s
    → Dispatched qty
        (in_order (candidates workspace_id cpo_item_id product_id s.items))
        s
        consumed
        s'
unfolding release_for_dispatch
release_for_dispatch-Dispatched w c p now qty n s s' h more sound =
    let ids = in_order (candidates w c p s.items) in
    let start : Consuming = record { consumed = zero_ℤ; qty = qty; impacted = []; store = s } in
    let (end, looped, h₁) = >>=-eq-ok (consume now ids start) _ (rw (is_positive qty more) at h) in
    let (t, refreshed, h₂) = >>=-eq-ok (for_each refresh_header end.impacted end.store) _ h₁ in
    subst (λ (x : ℤ × ReservationStore). Dispatched qty ids s x.0 x.1) (ok_injective h₂)
      (Dispatched-of qty ids s end t
        (consume-Ended qty (total_held s) now ids start end looped more (candidates-IsOpen w c p s)
          (record {
            sound = sound;
            split = grind int_laws;
            shrunk = grind int_laws;
            taken = omega arith;
            rest = omega arith;
          }))
        (refreshed_items end.impacted end.store t refreshed))
