-- ===== src/Transfer/Ledgered.antt =====
-- The ledger under the transfers of services/stock_transfer_service.py: each step that moves stock on
-- hand writes the rows that explain it.
use Prim.Native.String.{String}
use rezorpay_pro.Common.{
  ℕ, ℤ, zero_ℤ, not, ◌||◌, Option, some, ◌≡◌, refl, ◌+ℤ◌, ◌-ℤ◌, ltb_ℤ, map, nat_eq, ok, >>=-eq-ok,
  raise_if-eq-ok, ok_injective, arith, int_laws, for_each, for_each_inv, subst, sym, inl, inr,
  Bool-cases,
}
use rezorpay_pro.Stock.{Stock, IsLedgered, available}
use rezorpay_pro.Stock.Locate.{lock_or_create_level, lock_or_create_level-Locked}
use rezorpay_pro.Stock.Balance.{post-IsLedgered, Locked-IsLedgered, save_level-IsLedgered}
use rezorpay_pro.Transfer.{
  in_transit, received, cancelled, StockTransfer, StockTransferItem, TransferStore, source_key,
  destination_key, require,
}
use rezorpay_pro.Transfer.Steps.{
  record_receipt, transfer_row, lines, dispatch_item, dispatch_transfer, receive_item, received_of,
  receive_transfer, return_item, return_lines, cancel_transfer, is_approved, is_in_transit,
  is_failing,
}
use rezorpay_pro.Transfer.Totals.{save-eq-ok}

subtracted : (a q : ℤ) → a -ℤ q ≡ a +ℤ (zero_ℤ -ℤ q)
subtracted a q = omega int_laws

module _ (id user_id : ℕ) (header : StockTransfer) where
  dispatch_item-IsLedgered :
      (item : StockTransferItem) (s s' : Stock)
      → dispatch_item id user_id header item s ≡ ok s'
      → IsLedgered s
      → IsLedgered s'
  unfolding dispatch_item
  dispatch_item-IsLedgered item s s' h l =
      let key = source_key header item in
      let ((level, t), got, h₁) = >>=-eq-ok (lock_or_create_level key s) _ h in
      let (enough, h₂) = raise_if-eq-ok (ltb_ℤ (available level) item.quantity) _ _ h₁ in
      let lock = lock_or_create_level-Locked key s level t got in
      subst IsLedgered (ok_injective h₂) (
        post-IsLedgered key level _ _ t lock.found
          (unfold transfer_row in subtracted level.on_hand item.quantity)
          (λ w p b. unfold transfer_row source_key in ground arith)
          (Locked-IsLedgered key s level t lock l))

  return_item-IsLedgered :
      (item : StockTransferItem) (s s' : Stock)
      → return_item id user_id header item s ≡ ok s'
      → IsLedgered s
      → IsLedgered s'
  unfolding return_item
  return_item-IsLedgered item s s' h l =
      let key = source_key header item in
      let ((level, t), got, h₁) = >>=-eq-ok (lock_or_create_level key s) _ h in
      let lock = lock_or_create_level-Locked key s level t got in
      subst IsLedgered (ok_injective h₁) (
        post-IsLedgered key level _ _ t lock.found (unfold transfer_row in refl)
          (λ w p b. unfold transfer_row source_key in ground arith)
          (Locked-IsLedgered key s level t lock l))

  receive_item-IsLedgered :
      (received_map : ℕ → Option ℤ) (item : StockTransferItem) (s s' : Stock)
      → receive_item id user_id header received_map item s ≡ ok s'
      → IsLedgered s
      → IsLedgered s'
  unfolding receive_item
  receive_item-IsLedgered m item s s' h l =
      let source = source_key header item in
      let destination = destination_key header item in
      let q = received_of m item in
      let (_, h₀) = raise_if-eq-ok (ltb_ℤ q zero_ℤ || ltb_ℤ item.quantity q) _ _ h in
      let ((level, t), got, h₁) = >>=-eq-ok (lock_or_create_level destination s) _ h₀ in
      let ((level', u), got', h₂) = >>=-eq-ok (lock_or_create_level source _) _ h₁ in
      let lock = lock_or_create_level-Locked destination s level t got in
      let lock' = lock_or_create_level-Locked source _ level' u got' in
      subst IsLedgered (ok_injective h₂) (
        save_level-IsLedgered source level' _ u lock'.found refl (
          Locked-IsLedgered source _ level' u lock' (
            post-IsLedgered destination level _ _ t lock.found (unfold transfer_row in refl)
              (λ w p b. unfold transfer_row destination_key in ground arith)
              (Locked-IsLedgered destination s level t lock l))))

  returned-IsLedgered :
      (s s' : Stock) → return_lines id user_id header s ≡ ok s' → IsLedgered s → IsLedgered s'
  unfolding return_lines
  returned-IsLedgered s s' h l = elim (Bool-cases (is_in_transit header.status)) [
    | inl away ↦
        for_each_inv IsLedgered (return_item id user_id header) return_item-IsLedgered
          (lines header) s s' (rw (away, return_lines) at h) l
    | inr here ↦ subst IsLedgered (ok_injective (rw (here, return_lines) at h)) l
  ]

module _ (id w user_id now : ℕ) (s s' : TransferStore) where
  -- Where the ledger accounts for the stock on hand of every bin, it does so after a dispatch.
  pub dispatch_transfer-IsLedgered :
      dispatch_transfer id w user_id now s ≡ ok s' → IsLedgered s.stock → IsLedgered s'.stock
  unfolding dispatch_transfer
  dispatch_transfer-IsLedgered h l =
      let (header, found, h₁) = >>=-eq-ok (require id w s) _ h in
      let (guard, h₂) = raise_if-eq-ok (not (is_approved header.status)) _ _ h₁ in
      let (stock, looped, h₃) =
        >>=-eq-ok (for_each (dispatch_item id user_id header) (lines header) s.stock) _ h₂ in
      subst (λ (x : TransferStore). IsLedgered x.stock)
        (sym
          (save-eq-ok id (record header { status = in_transit; dispatched_at = some now }) stock s
            s' h₃).0)
        (for_each_inv IsLedgered (dispatch_item id user_id header)
          (dispatch_item-IsLedgered id user_id header) (lines header) s.stock stock looped l)

  -- Where the ledger accounts for the stock on hand of every bin, it does so after a receipt, in
  -- part or in full.
  pub receive_transfer-IsLedgered :
      (received_map : ℕ → Option ℤ)
      → receive_transfer id w user_id received_map now s ≡ ok s'
      → IsLedgered s.stock
      → IsLedgered s'.stock
  unfolding receive_transfer
  receive_transfer-IsLedgered m h l =
      let (header, found, h₁) = >>=-eq-ok (require id w s) _ h in
      let (guard, h₂) = raise_if-eq-ok (not (is_in_transit header.status)) _ _ h₁ in
      let (stock, looped, h₃) =
        >>=-eq-ok (for_each (receive_item id user_id header m) (lines header) s.stock) _ h₂ in
      subst (λ (x : TransferStore). IsLedgered x.stock)
        (sym
          (save-eq-ok id
            (record header {
              status = received;
              received_at = some now;
              items = map (record_receipt m) header.items;
            })
            stock s s' h₃).0)
        (for_each_inv IsLedgered (receive_item id user_id header m)
          (receive_item-IsLedgered id user_id header m) (lines header) s.stock stock looped l)

  -- Where the ledger accounts for the stock on hand of every bin, it does so after a cancellation,
  -- whether or not the transfer was in transit.
  pub cancel_transfer-IsLedgered :
      (reason : Option String)
      → cancel_transfer id w user_id reason now s ≡ ok s'
      → IsLedgered s.stock
      → IsLedgered s'.stock
  unfolding cancel_transfer
  cancel_transfer-IsLedgered reason h l =
      let (header, found, h₁) = >>=-eq-ok (require id w s) _ h in
      let (guard, h₂) = raise_if-eq-ok (is_failing header.status) _ _ h₁ in
      let (stock, looped, h₃) = >>=-eq-ok (return_lines id user_id header s.stock) _ h₂ in
      subst (λ (x : TransferStore). IsLedgered x.stock)
        (sym
          (save-eq-ok id
            (record header {
              status = cancelled;
              cancelled_at = some now;
              cancellation_reason = reason;
            })
            stock s s' h₃).0)
        (returned-IsLedgered id user_id header s.stock stock looped l)
