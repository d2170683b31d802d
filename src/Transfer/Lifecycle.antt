-- ===== src/Transfer/Lifecycle.antt =====
-- What dispatch, receipt and cancellation of a transfer (services/stock_transfer_service.py) do to
-- the stock and the header.
use Prim.Native.String.{String}
use rezorpay_pro.Common.{
  ℕ, ℤ, zero_ℤ, false, not, Option, some, ◌≡◌, refl, ◌-ℤ◌, map, nat_eq, lookup, put, ok, >>=-eq-ok,
  raise_if-eq-ok, for_each, subst, sym, ◌∙◌, some_inj,
}
use rezorpay_pro.Stock.{Stock, LevelKey, same_key}
use rezorpay_pro.Stock.Checks.{HasChecks}
use rezorpay_pro.Transfer.{
  TransferStatus, draft, approved, in_transit, received, cancelled, StockTransfer, TransferStore,
  source_key, destination_key, require, save,
}
use rezorpay_pro.Transfer.Steps.{
  lines, dispatch_item, dispatch_transfer, receive_item, received_of, record_receipt,
  receive_transfer, return_item, return_lines, cancel_transfer, is_approved, is_in_transit,
  is_failing,
}
use rezorpay_pro.Stock.Moves.{Moves-as, Moves, for_each-Moves}
use rezorpay_pro.Transfer.Effect.{
  leaving, arriving, dispatch_item-Moves, return_item-Moves, receive_item-Moves,
}
use rezorpay_pro.Transfer.Totals.{
  save-eq-ok, require-eq-ok, leaves, leaves_negated, arrives, at_negated, at_alone, at_second,
}

-- A step that found `old` under `id` and wrote `header`, moving the levels by `f` and `g`.
pub record Stepped (id : ℕ) (old header : StockTransfer) (f g : LevelKey → ℤ) (s s' : TransferStore)
    : Type 0 where
  pub found : lookup id s.transfers ≡ some old
  pub written : s'.transfers ≡ put id header s.transfers
  pub moves : Moves f g s.stock s'.stock
  pub checks : HasChecks s'.stock

save-Stepped :
    (id : ℕ) (old header : StockTransfer) (f g : LevelKey → ℤ) (stock : Stock)
    (s s' : TransferStore)
    → lookup id s.transfers ≡ some old
    → Moves f g s.stock stock
    → save id header stock s ≡ ok s'
    → Stepped id old header f g s s'
save-Stepped id old header f g stock s s' found moves h =
    let (e, checks) = save-eq-ok id header stock s s' h in
    subst (Stepped id old header f g s) (sym e)
      (record { found = found; written = refl; moves = moves; checks = checks })

abbrev pub negated : (LevelKey → ℤ) → LevelKey → ℤ
negated f k = zero_ℤ -ℤ f k

was_approved : (status : TransferStatus) → not (is_approved status) ≡ false → status ≡ approved
was_approved draft h = cc
was_approved approved h = refl
was_approved in_transit h = cc
was_approved received h = cc
was_approved cancelled h = cc

was_in_transit :
    (status : TransferStatus) → not (is_in_transit status) ≡ false → status ≡ in_transit
was_in_transit draft h = cc
was_in_transit approved h = cc
was_in_transit in_transit h = refl
was_in_transit received h = cc
was_in_transit cancelled h = cc

module _ (id w user_id : ℕ) (s s' : TransferStore) where
  -- A successful dispatch found an approved transfer and writes it back as in transit; at every row
  -- of the stock, what the lines of the transfer take from that row goes from the stock on hand to
  -- the stock in transit, and nothing else changes.
  pub dispatch_transfer-Stepped :
      (now : ℕ)
      → dispatch_transfer id w user_id now s ≡ ok s'
      → (header : StockTransfer) × (header.status ≡ approved)
        × Stepped id header
            (record header { status = in_transit; dispatched_at = some now })
            (negated (leaving header))
            (leaving header)
            s
            s'
  unfolding dispatch_transfer
  dispatch_transfer-Stepped now h =
      let (header, found, h₁) = >>=-eq-ok (require id w s) _ h in
      let (guard, h₂) = raise_if-eq-ok (not (is_approved header.status)) _ _ h₁ in
      let (stock, looped, h₃) =
        >>=-eq-ok (for_each (dispatch_item id user_id header) (lines header) s.stock) _ h₂ in
      (
        header,
        was_approved header.status guard,
        save-Stepped id header _ _ _ stock s s' (require-eq-ok id w s header found)
            (Moves-as _ _ _ _ _ _ (λ k. leaves_negated header k _ (λ item. at_negated _ _))
              (λ k. leaves header k _ (λ item. refl))
              (for_each-Moves (dispatch_item id user_id header) _ _
                (dispatch_item-Moves id user_id header) (lines header) s.stock stock looped))
            h₃,
      )

  -- A successful receipt found a transfer in transit and writes it back as received, with the
  -- received quantities on its lines; at every row of the stock, what the lines took from it is no
  -- longer in transit, and what of them was received for it is on hand.
  pub receive_transfer-Stepped :
      (received_map : ℕ → Option ℤ) (now : ℕ)
      → receive_transfer id w user_id received_map now s ≡ ok s'
      → (header : StockTransfer) × (header.status ≡ in_transit)
        × Stepped id header
            (record header {
              status = received;
              received_at = some now;
              items = map (record_receipt received_map) header.items;
            })
            (arriving header received_map)
            (negated (leaving header))
            s
            s'
  unfolding receive_transfer
  receive_transfer-Stepped m now h =
      let (header, found, h₁) = >>=-eq-ok (require id w s) _ h in
      let (guard, h₂) = raise_if-eq-ok (not (is_in_transit header.status)) _ _ h₁ in
      let (stock, looped, h₃) =
        >>=-eq-ok (for_each (receive_item id user_id header m) (lines header) s.stock) _ h₂ in
      (
        header,
        was_in_transit header.status guard,
        save-Stepped id header _ _ _ stock s s' (require-eq-ok id w s header found)
            (Moves-as _ _ _ _ _ _
              (λ k. arrives header k m _ (λ item.
                at_alone (same_key (destination_key header item) k)
                  (same_key (source_key header item) k) (received_of m item)))
              (λ k. leaves_negated header k _ (λ item.
                at_second (same_key (destination_key header item) k)
                  (same_key (source_key header item) k) item.quantity))
              (for_each-Moves (receive_item id user_id header m) _ _
                (receive_item-Moves id user_id header m) (lines header) s.stock stock looped))
            h₃,
      )

  -- Where the transfer is in transit, a cancellation puts the goods back where they were taken from.
  returned :
      (stock : Stock) (header : StockTransfer)
      → header.status ≡ in_transit
      → return_lines id user_id header s.stock ≡ ok stock
      → Moves (leaving header) (negated (leaving header)) s.stock stock
  unfolding return_lines
  returned stock header st h =
      Moves-as _ _ _ _ _ _ (λ k. leaves header k _ (λ item. refl))
        (λ k.
          leaves_negated header k _
            (λ item. at_negated (same_key (source_key header item) k) item.quantity))
        (for_each-Moves (return_item id user_id header) _ _ (return_item-Moves id user_id header)
          (lines header) s.stock stock (rw (st, return_lines) at h))

  pub cancel_in_transit :
      (reason : Option String) (now : ℕ) (header : StockTransfer)
      → lookup id s.transfers ≡ some header
      → header.status ≡ in_transit
      → cancel_transfer id w user_id reason now s ≡ ok s'
      → Stepped id header
          (record header {
            status = cancelled;
            cancelled_at = some now;
            cancellation_reason = reason;
          })
          (leaving header)
          (negated (leaving header))
          s
          s'
  unfolding cancel_transfer
  cancel_in_transit reason now header present st h =
      let (header', found, h₁) = >>=-eq-ok (require id w s) _ h in
      let same : header' ≡ header = some_inj (sym (require-eq-ok id w s header' found) ∙ present) in
      let (guard, h₂) = raise_if-eq-ok (is_failing header'.status) _ _ h₁ in
      let (stock, looped, h₃) = >>=-eq-ok (return_lines id user_id header' s.stock) _ h₂ in
      save-Stepped id header _ _ _ stock s s' present
        (returned stock header st
          (subst (λ x. return_lines id user_id x s.stock ≡ ok stock) same looped))
        (subst
          (λ (x : StockTransfer).
            save id
              (record x {
                status = cancelled;
                cancelled_at = some now;
                cancellation_reason = reason;
              })
              stock s
            ≡ ok s')
          same h₃)
