-- ===== src/Transfer/RoundTrip.antt =====
-- A transfer that is dispatched and then cancelled or received (services/stock_transfer_service.py).
use Prim.Native.String.{String}
use rezorpay_pro.Common.{
  ℕ, ℤ, zero_ℤ, Option, some, ◌≡◌, refl, ◌+ℤ◌, ◌-ℤ◌, Table, nat_eq, lookup, put, ok, arith,
  int_laws, sym, ap, ◌∙◌, some_inj, lookup-put_self,
}
use rezorpay_pro.Stock.{LevelKey, InventoryLevel}
use rezorpay_pro.Stock.Checks.{level_at}
use rezorpay_pro.Transfer.{in_transit, StockTransfer, TransferStore, source_key, destination_key}
use rezorpay_pro.Transfer.Steps.{dispatch_transfer, receive_transfer, cancel_transfer}
use rezorpay_pro.Transfer.Effect.{leaving, arriving}
use rezorpay_pro.Transfer.Lifecycle.{
  dispatch_transfer-Stepped, receive_transfer-Stepped, cancel_in_transit,
}

level_of_parts :
    (l m : InventoryLevel)
    → m.on_hand ≡ l.on_hand
    → m.reserved ≡ l.reserved
    → m.damaged ≡ l.damaged
    → m.in_transit ≡ l.in_transit
    → m ≡ l
level_of_parts l m a b c d = grind arith

found_after :
    {A : Type 0} (id : ℕ) (a : A) (t t' : Table ℕ A) → t' ≡ put id a t → lookup id t' ≡ some a
found_after id a t t' e = rw e (lookup-put_self id a t)

-- A dispatched transfer takes what it took when it was approved.
leaving_dispatched :
    (header : StockTransfer) (now : ℕ) (k : LevelKey)
    → leaving (record header { status = in_transit; dispatched_at = some now }) k ≡ leaving header k
unfolding leaving source_key
leaving_dispatched header now k = refl

arriving_dispatched :
    (header : StockTransfer) (m : ℕ → Option ℤ) (now : ℕ) (k : LevelKey)
    → arriving (record header { status = in_transit; dispatched_at = some now }) m k
      ≡ arriving header m k
unfolding arriving destination_key
arriving_dispatched header m now k = refl

out_and_in : (a b c x y : ℤ) → b ≡ a +ℤ (zero_ℤ -ℤ x) → c ≡ b +ℤ y → y ≡ x → c ≡ a
out_and_in a b c x y e f same = grind int_laws

in_and_out : (a b c x y : ℤ) → b ≡ a +ℤ x → c ≡ b +ℤ (zero_ℤ -ℤ y) → y ≡ x → c ≡ a
in_and_out a b c x y e f same = grind int_laws

out_and_over : (a b c x y : ℤ) → b ≡ a +ℤ (zero_ℤ -ℤ x) → c ≡ b +ℤ y → c ≡ a -ℤ x +ℤ y
out_and_over a b c x y e f = grind int_laws

-- Where a dispatch and then a cancellation of the same transfer return, every row of the stock is
-- back, in all its columns, to what it was before the dispatch.
pub cancel_transfer_undoes :
    (id w user_id now w' user_id' now' : ℕ) (reason : Option String) (s t s' : TransferStore)
    → dispatch_transfer id w user_id now s ≡ ok t
    → cancel_transfer id w' user_id' reason now' t ≡ ok s'
    → (k : LevelKey) → level_at k s'.stock ≡ level_at k s.stock
cancel_transfer_undoes id w u now w' u' now' reason s t s' h h' k =
    let (header, _, out) = dispatch_transfer-Stepped id w u s t now h in
    let back =
      cancel_in_transit id w' u' t s' reason now' _
        (found_after id _ s.transfers t.transfers out.written) refl h' in
    let same = leaving_dispatched header now k in
    level_of_parts _ _
      (out_and_in _ _ _ (leaving header k) _ (out.moves.on_hand k) (back.moves.on_hand k) same)
      (back.moves.reserved k ∙ out.moves.reserved k) (back.moves.damaged k ∙ out.moves.damaged k)
      (in_and_out _ _ _ (leaving header k) _ (out.moves.in_transit k) (back.moves.in_transit k)
        same)

-- Where a dispatch and then a receipt of the same transfer return, at every row the stock in transit is
-- what it was before the dispatch, and the stock on hand has lost what the lines took from the row
-- and gained what was received for it.
pub receive_transfer_settles :
    (id w user_id now w' user_id' now' : ℕ) (received_map : ℕ → Option ℤ) (s t s' : TransferStore)
    → dispatch_transfer id w user_id now s ≡ ok t
    → receive_transfer id w' user_id' received_map now' t ≡ ok s'
    → (header : StockTransfer) × (lookup id s.transfers ≡ some header)
      × ((k : LevelKey)
          → ((level_at k s'.stock).in_transit ≡ (level_at k s.stock).in_transit)
            × ((level_at k s'.stock).on_hand
                ≡ (level_at k s.stock).on_hand
                  -ℤ leaving header k
                  +ℤ arriving header received_map k))
receive_transfer_settles id w u now w' u' now' m s t s' h h' =
    let (header, _, out) = dispatch_transfer-Stepped id w u s t now h in
    let (header', _, got) = receive_transfer-Stepped id w' u' t s' m now' h' in
    let after = record header { status = in_transit; dispatched_at = some now } in
    let same : header' ≡ after =
      some_inj (sym got.found ∙ found_after id _ s.transfers t.transfers out.written) in
    (
      header,
      out.found,
      λ k. (
        in_and_out _ _ _ (leaving header k) _ (out.moves.in_transit k) (got.moves.in_transit k)
            (ap (λ x. leaving x k) same ∙ leaving_dispatched header now k),
        out_and_over _ _ _ (leaving header k) (arriving header m k) (out.moves.on_hand k) (
            got.moves.on_hand k
            ∙ ap (λ (x : ℤ). (level_at k t.stock).on_hand +ℤ x)
                (ap (λ x. arriving x m k) same ∙ arriving_dispatched header m now k)),
      ),
    )
