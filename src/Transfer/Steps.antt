-- ===== src/Transfer/Steps.antt =====
-- services/stock_transfer_service.py: dispatch, receipt and cancellation, the steps of a transfer
-- that move stock.
use Prim.Native.String.{String}
use rezorpay_pro.Common.{
  ℕ, ℤ, zero_ℤ, Bool, true, false, not, ◌||◌, Option, none, some, List, nat_eq, ltb_ℤ, ◌-ℤ◌, ◌+ℤ◌,
  map, if◌then◌else◌, Result, ok, http, validation_error, invalid_state, ◌>>=◌, ◌>>◌, raise_if,
  for_each, sorted,
}
use rezorpay_pro.Stock.{
  Stock, LevelKey, InventoryTransaction, transfer, available, save_level, post,
}
use rezorpay_pro.Stock.Locate.{lock_or_create_level}
use rezorpay_pro.Transfer.{
  TransferStatus, approved, in_transit, received, cancelled, StockTransfer, StockTransferItem,
  TransferStore, source_key, destination_key, require, save,
}

-- The ledger row of a movement.
unfoldable pub transfer_row :
    ℕ → ℕ → LevelKey → ℤ → Option ℕ → Option ℕ → String → InventoryTransaction
transfer_row transfer_id user_id key quantity source destination reference_type = record {
  workspace_id = key.workspace_id;
  product_id = key.product_id;
  transaction_type = transfer;
  quantity = quantity;
  source_bin_id = source;
  destination_bin_id = destination;
  reference_type = some reference_type;
  reference_id = some transfer_id;
  reason = none;
  notes = none;
  user_id = user_id;
}

-- `sorted(header.items, key=lambda line: line.created_at)`.
unfoldable pub lines : StockTransfer → List StockTransferItem
unfolding sorted
lines header = sorted (λ line. line.created_at) header.items

unfoldable pub dispatch_item : ℕ → ℕ → StockTransfer → StockTransferItem → Stock → Result Stock
unfolding lock_or_create_level available post transfer_row source_key
dispatch_item transfer_id user_id header item s = do
  let key = source_key header item
  (level, s') ← lock_or_create_level key s
  raise_if (ltb_ℤ (available level) item.quantity) (http 400 validation_error)
  ok (
      post key
        (record level {
          on_hand = level.on_hand -ℤ item.quantity;
          in_transit = level.in_transit +ℤ item.quantity;
        })
        (transfer_row transfer_id user_id key (zero_ℤ -ℤ item.quantity) (some item.source_bin_id)
          none "TRANSFER")
        s')

abbrev pub is_approved : TransferStatus → Bool
is_approved approved = true
is_approved _ = false

abbrev pub is_in_transit : TransferStatus → Bool
is_in_transit in_transit = true
is_in_transit _ = false

-- `status in _FAILING_STATES`.
abbrev pub is_failing : TransferStatus → Bool
is_failing received = true
is_failing cancelled = true
is_failing _ = false

unfoldable pub dispatch_transfer : ℕ → ℕ → ℕ → ℕ → TransferStore → Result TransferStore
unfolding require save lines dispatch_item
dispatch_transfer transfer_id workspace_id user_id now s = do
  header ← require transfer_id workspace_id s
  raise_if (not (is_approved header.status)) (http 400 invalid_state)
  stock ← for_each (dispatch_item transfer_id user_id header) (lines header) s.stock
  save transfer_id (record header { status = in_transit; dispatched_at = some now }) stock s

-- `received_map.get(item.product_id, item.quantity)`.
unfoldable pub received_of : (ℕ → Option ℤ) → StockTransferItem → ℤ
received_of received_map item = elim (received_map item.product_id) [
  | none ↦ item.quantity
  | some q ↦ q
]

unfoldable pub receive_item :
    ℕ → ℕ → StockTransfer → (ℕ → Option ℤ) → StockTransferItem → Stock → Result Stock
unfolding lock_or_create_level save_level post transfer_row source_key destination_key received_of
receive_item transfer_id user_id header received_map item s = do
  let taken = received_of received_map item
  let destination = destination_key header item
  let source = source_key header item
  raise_if (ltb_ℤ taken zero_ℤ || ltb_ℤ item.quantity taken) (http 400 validation_error)
  (dest_level, s') ← lock_or_create_level destination s
  let t =
      post destination (record dest_level { on_hand = dest_level.on_hand +ℤ taken })
        (transfer_row transfer_id user_id destination taken none (some item.destination_bin_id)
          "TRANSFER")
        s'
  (source_level, t') ← lock_or_create_level source t
  ok (
      save_level source
        (record source_level { in_transit = source_level.in_transit -ℤ item.quantity }) t')

abbrev pub record_receipt : (ℕ → Option ℤ) → StockTransferItem → StockTransferItem
record_receipt received_map item = record item { received_quantity = received_of received_map item }

-- Each line is visited once, so the writes to the lines are one map.
unfoldable pub receive_transfer :
    ℕ → ℕ → ℕ → (ℕ → Option ℤ) → ℕ → TransferStore → Result TransferStore
unfolding require save lines receive_item received_of
receive_transfer transfer_id workspace_id user_id received_map now s = do
  header ← require transfer_id workspace_id s
  raise_if (not (is_in_transit header.status)) (http 400 invalid_state)
  stock ← for_each (receive_item transfer_id user_id header received_map) (lines header) s.stock
  save transfer_id
      (record header {
        status = received;
        received_at = some now;
        items = map (record_receipt received_map) header.items;
      })
      stock s

unfoldable pub return_item : ℕ → ℕ → StockTransfer → StockTransferItem → Stock → Result Stock
unfolding lock_or_create_level post transfer_row source_key
return_item transfer_id user_id header item s = do
  let key = source_key header item
  (level, s') ← lock_or_create_level key s
  ok (
      post key
        (record level {
          on_hand = level.on_hand +ℤ item.quantity;
          in_transit = level.in_transit -ℤ item.quantity;
        })
        (transfer_row transfer_id user_id key item.quantity (some item.source_bin_id) none
          "TRANSFER_RETURN")
        s')

-- The goods of a transfer on its way go back to the source.
unfoldable pub return_lines : ℕ → ℕ → StockTransfer → Stock → Result Stock
unfolding lines return_item
return_lines transfer_id user_id header s =
    if is_in_transit header.status
    then for_each (return_item transfer_id user_id header) (lines header) s
    else ok s

unfoldable pub cancel_transfer :
    ℕ → ℕ → ℕ → Option String → ℕ → TransferStore → Result TransferStore
unfolding require save return_lines
cancel_transfer transfer_id workspace_id user_id reason now s = do
  header ← require transfer_id workspace_id s
  raise_if (is_failing header.status) (http 400 invalid_state)
  stock ← return_lines transfer_id user_id header s.stock
  save transfer_id
      (record header { status = cancelled; cancelled_at = some now; cancellation_reason = reason })
      stock s
