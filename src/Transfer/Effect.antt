-- ===== src/Transfer/Effect.antt =====
-- What dispatch, receipt and cancellation of a transfer (services/stock_transfer_service.py) move.
use rezorpay_pro.Common.{
  ℕ, ℤ, zero_ℤ, ◌||◌, Option, ◌≡◌, ◌+ℤ◌, ◌-ℤ◌, ltb_ℤ, nat_eq, ok, >>=-eq-ok, raise_if-eq-ok,
  ok_injective, int_laws, sum, subst, ap, ◌∙◌,
}
use rezorpay_pro.Stock.{Stock, LevelKey, InventoryLevel, available}
use rezorpay_pro.Stock.Locate.{lock_or_create_level, lock_or_create_level-Locked}
use rezorpay_pro.Stock.Checks.{level_at-post, level_at-save_level}
use rezorpay_pro.Transfer.{StockTransfer, StockTransferItem, source_key, destination_key}
use rezorpay_pro.Transfer.Steps.{dispatch_item, receive_item, received_of, return_item}
use rezorpay_pro.Stock.Moves.{Moves, at, Moves-trans, row-Moves}

-- What the lines of a transfer hold at a source row, and what of them arrives at a destination row.
unfoldable pub leaving : StockTransfer → LevelKey → ℤ
leaving header k = sum (λ item. at (source_key header item) item.quantity k) header.items

unfoldable pub arriving : StockTransfer → (ℕ → Option ℤ) → LevelKey → ℤ
arriving header received_map k =
    sum (λ item. at (destination_key header item) (received_of received_map item) k) header.items

sub_as_add : (a q : ℤ) → a -ℤ q ≡ a +ℤ (zero_ℤ -ℤ q)
sub_as_add a q = omega int_laws

add_nothing : (a : ℤ) → a ≡ a +ℤ zero_ℤ
add_nothing a = omega int_laws

-- The four writes to a row, as moves of its two quantities.
goes_out :
    (l : InventoryLevel) (q : ℤ)
    → record l { on_hand = l.on_hand -ℤ q; in_transit = l.in_transit +ℤ q }
      ≡ record l { on_hand = l.on_hand +ℤ (zero_ℤ -ℤ q); in_transit = l.in_transit +ℤ q }
goes_out l q =
    ap (λ (x : ℤ). record l { on_hand = x; in_transit = l.in_transit +ℤ q })
      (sub_as_add l.on_hand q)

comes_back :
    (l : InventoryLevel) (q : ℤ)
    → record l { on_hand = l.on_hand +ℤ q; in_transit = l.in_transit -ℤ q }
      ≡ record l { on_hand = l.on_hand +ℤ q; in_transit = l.in_transit +ℤ (zero_ℤ -ℤ q) }
comes_back l q =
    ap (λ (x : ℤ). record l { on_hand = l.on_hand +ℤ q; in_transit = x })
      (sub_as_add l.in_transit q)

comes_in :
    (l : InventoryLevel) (q : ℤ)
    → record l { on_hand = l.on_hand +ℤ q }
      ≡ record l { on_hand = l.on_hand +ℤ q; in_transit = l.in_transit +ℤ zero_ℤ }
comes_in l q =
    ap (λ (x : ℤ). record l { on_hand = l.on_hand +ℤ q; in_transit = x }) (add_nothing l.in_transit)

clears :
    (l : InventoryLevel) (q : ℤ)
    → record l { in_transit = l.in_transit -ℤ q }
      ≡ record l { on_hand = l.on_hand +ℤ zero_ℤ; in_transit = l.in_transit +ℤ (zero_ℤ -ℤ q) }
clears l q =
    ap (λ (x : ℤ). record l { on_hand = x; in_transit = l.in_transit -ℤ q }) (add_nothing l.on_hand)
    ∙ ap (λ (x : ℤ). record l { on_hand = l.on_hand +ℤ zero_ℤ; in_transit = x })
        (sub_as_add l.in_transit q)

module _ (transfer_id user_id : ℕ) (header : StockTransfer) where
  -- A line leaves the source row: off the shelf, on its way.
  pub dispatch_item-Moves :
      (item : StockTransferItem) (s s' : Stock)
      → dispatch_item transfer_id user_id header item s ≡ ok s'
      → Moves
          (at (source_key header item) (zero_ℤ -ℤ item.quantity))
          (at (source_key header item) item.quantity)
          s
          s'
  unfolding dispatch_item
  dispatch_item-Moves item s s' h =
      let key = source_key header item in
      let ((level, t), lock, h₁) = >>=-eq-ok (lock_or_create_level key s) _ h in
      let (enough, h₂) = raise_if-eq-ok (ltb_ℤ (available level) item.quantity) _ _ h₁ in
      subst (Moves (at key (zero_ℤ -ℤ item.quantity)) (at key item.quantity) s) (ok_injective h₂) (
        row-Moves key level _ (zero_ℤ -ℤ item.quantity) item.quantity s t _
          (lock_or_create_level-Locked key s level t lock) (λ k. level_at-post key k _ _ t)
          (goes_out level item.quantity))

  pub return_item-Moves :
      (item : StockTransferItem) (s s' : Stock)
      → return_item transfer_id user_id header item s ≡ ok s'
      → Moves
          (at (source_key header item) item.quantity)
          (at (source_key header item) (zero_ℤ -ℤ item.quantity))
          s
          s'
  unfolding return_item
  return_item-Moves item s s' h =
      let key = source_key header item in
      let ((level, t), lock, h₁) = >>=-eq-ok (lock_or_create_level key s) _ h in
      subst (Moves (at key item.quantity) (at key (zero_ℤ -ℤ item.quantity)) s) (ok_injective h₁) (
        row-Moves key level _ item.quantity (zero_ℤ -ℤ item.quantity) s t _
          (lock_or_create_level-Locked key s level t lock) (λ k. level_at-post key k _ _ t)
          (comes_back level item.quantity))

  pub receive_item-Moves :
      (received_map : ℕ → Option ℤ) (item : StockTransferItem) (s s' : Stock)
      → receive_item transfer_id user_id header received_map item s ≡ ok s'
      → Moves
          (λ k.
            at (destination_key header item) (received_of received_map item) k
            +ℤ at (source_key header item) zero_ℤ k)
          (λ k.
            at (destination_key header item) zero_ℤ k
            +ℤ at (source_key header item) (zero_ℤ -ℤ item.quantity) k)
          s
          s'
  unfolding receive_item
  receive_item-Moves m item s s' h =
      let source = source_key header item in
      let destination = destination_key header item in
      let q = received_of m item in
      let (_, h₀) = raise_if-eq-ok (ltb_ℤ q zero_ℤ || ltb_ℤ item.quantity q) _ _ h in
      let ((level, t), lock, h₁) = >>=-eq-ok (lock_or_create_level destination s) _ h₀ in
      let ((level', u), lock', h₂) = >>=-eq-ok (lock_or_create_level source _) _ h₁ in
      subst (Moves _ _ s) (ok_injective h₂) (
        Moves-trans (at destination q) (at destination zero_ℤ) (at source zero_ℤ)
          (at source (zero_ℤ -ℤ item.quantity)) s _ _
          (row-Moves destination level _ q zero_ℤ s t _
            (lock_or_create_level-Locked destination s level t lock)
            (λ k. level_at-post destination k _ _ t) (comes_in level q))
          (row-Moves source level' _ zero_ℤ (zero_ℤ -ℤ item.quantity) _ u _
            (lock_or_create_level-Locked source _ level' u lock')
            (λ k. level_at-save_level source k _ u) (clears level' item.quantity)))
