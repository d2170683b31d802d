-- ===== src/Count/Steps.antt =====
-- services/stock_count_service.py: the operations on a count that is there: counting its items,
-- completion, approval, reconciliation with the stock, and cancellation.
use Prim.Native.String.{String, ◌++◌}
use rezorpay_pro.Common.{
  ℕ, ℤ, zero_ℤ, Bool, true, false, not, ◌&&◌, ◌||◌, Option, none, some, List, [], ◌∷◌, Table,
  nat_eq, ltb_ℤ, eq_ℤ, ◌+ℤ◌, map, lookup, put, if◌then◌else◌, Result, ok, http, not_found,
  validation_error, invalid_state, insufficient_permissions, ◌>>=◌, ◌>>◌, raise_if, or_raise,
  for_each, sorted,
}
use rezorpay_pro.Numbers.{text_of}
use rezorpay_pro.Stock.{Stock, LevelKey, InventoryTransaction, adjustment, post}
use rezorpay_pro.Stock.Locate.{lock_or_create_level}
use rezorpay_pro.Stock.Ledger.{User, is_manager}
use rezorpay_pro.Count.{
  StockCountStatus, scheduled, in_progress, completed, reconciled, cancelled, StockCount,
  StockCountItem, CountStore, variance, needs_approval, require, save,
}

-- `header.status in (COMPLETED, RECONCILED, CANCELLED)`.
abbrev pub is_closed : StockCountStatus → Bool
is_closed scheduled = false
is_closed in_progress = false
is_closed _ = true

abbrev pub is_completed : StockCountStatus → Bool
is_completed completed = true
is_completed _ = false

-- The first count of a scheduled count starts it.
abbrev pub started : ℕ → StockCount → StockCount
started now header = elim header.status [
  | scheduled ↦ record header { status = in_progress; started_at = some now }
  | in_progress ↦ header
  | completed ↦ header
  | reconciled ↦ header
  | cancelled ↦ header
]

abbrev pub or_keep : Option String → Option String → Option String
or_keep none old = old
or_keep (some new) old = some new

unfoldable pub record_count :
    ℕ → User → ℕ → ℕ → ℤ → Option String → ℕ → CountStore → Result CountStore
unfolding require save
record_count workspace_id user count_id item_id counted notes now s = do
  raise_if (not (is_manager user.role)) (http 403 insufficient_permissions)
  header ← require count_id workspace_id s
  raise_if (is_closed header.status) (http 400 invalid_state)
  item ← or_raise (lookup item_id header.items) (http 404 not_found)
  let counted_item : StockCountItem = record item {
    counted_quantity = some counted;
    notes = or_keep notes item.notes;
  }
  save count_id (started now (record header { items = put item_id counted_item header.items }))
      s.stock s

unfoldable pub is_uncounted : Table ℕ StockCountItem → Bool
is_uncounted [] = false
is_uncounted ((id, item) ∷ items) =
    elim item.counted_quantity [ none ↦ true | some q ↦ false ] || is_uncounted items

-- A flag of every item.
abbrev pub flagged : ℕ × StockCountItem → ℕ × StockCountItem
flagged (id, item) = (
  id,
  record item { requires_approval = needs_approval item.expected_quantity item.counted_quantity },
)

unfoldable pub complete_count : ℕ → User → ℕ → ℕ → CountStore → Result CountStore
unfolding require save is_uncounted needs_approval
complete_count workspace_id user count_id now s = do
  raise_if (not (is_manager user.role)) (http 403 insufficient_permissions)
  header ← require count_id workspace_id s
  raise_if (is_closed header.status) (http 400 invalid_state)
  raise_if (is_uncounted header.items) (http 400 validation_error)
  save count_id
      (record header {
        status = completed;
        completed_at = some now;
        items = map flagged header.items;
      })
      s.stock s

abbrev pub approved_item : ℕ × StockCountItem → ℕ × StockCountItem
approved_item (id, item) =
    (id, if item.requires_approval then record item { approved = true } else item)

unfoldable pub approve_count : ℕ → User → ℕ → ℕ → CountStore → Result CountStore
unfolding require save
approve_count workspace_id user count_id now s = do
  raise_if (not (is_manager user.role)) (http 403 insufficient_permissions)
  header ← require count_id workspace_id s
  raise_if (not (is_completed header.status)) (http 400 invalid_state)
  save count_id
      (record header {
        approved_by = some user.id;
        approved_at = some now;
        items = map approved_item header.items;
      })
      s.stock s

-- `pending` is not empty.
unfoldable pub is_pending : Table ℕ StockCountItem → Bool
is_pending [] = false
is_pending ((id, item) ∷ items) = item.requires_approval && not item.approved || is_pending items

unfoldable pub item_key : StockCount → StockCountItem → LevelKey
item_key header item = record {
  workspace_id = header.workspace_id;
  product_id = item.product_id;
  warehouse_id = header.warehouse_id;
  bin_id = item.bin_id;
}

unfoldable pub count_row : ℕ → ℕ → StockCount → StockCountItem → ℤ → InventoryTransaction
unfolding text_of
count_row count_id user_id header item q = record {
  workspace_id = header.workspace_id;
  product_id = item.product_id;
  transaction_type = adjustment;
  quantity = q;
  source_bin_id = if ltb_ℤ q zero_ℤ then some item.bin_id else none;
  destination_bin_id = if ltb_ℤ zero_ℤ q then some item.bin_id else none;
  reference_type = some "COUNT";
  reference_id = some count_id;
  reason = some "COUNT_CORRECTION";
  notes = some (text_of header.count_number ++ " variance");
  user_id = user_id;
}

-- The body of the loop for an item that is off by `q`.
unfoldable pub correct_level : ℕ → ℕ → StockCount → StockCountItem → ℤ → Stock → Result Stock
unfolding lock_or_create_level post item_key count_row
correct_level count_id user_id header item q s = do
  (level, s') ← lock_or_create_level (item_key header item) s
  ok (
      post (item_key header item) (record level { on_hand = level.on_hand +ℤ q })
        (count_row count_id user_id header item q) s')

unfoldable pub reconcile_item : ℕ → ℕ → StockCount → StockCountItem → Stock → Result Stock
unfolding variance correct_level
reconcile_item count_id user_id header item s = elim (eq_ℤ (variance item) zero_ℤ) [
  | true ↦ ok s
  | false ↦ correct_level count_id user_id header item (variance item) s
]

-- `sorted(header.items, key=lambda line: line.created_at)`.
unfoldable pub count_lines : StockCount → List StockCountItem
unfolding sorted
count_lines header = sorted (λ line. line.created_at) (map (λ row. row.1) header.items)

unfoldable pub reconcile_count : ℕ → User → ℕ → ℕ → CountStore → Result CountStore
unfolding require save is_pending count_lines reconcile_item
reconcile_count workspace_id user count_id now s = do
  raise_if (not (is_manager user.role)) (http 403 insufficient_permissions)
  header ← require count_id workspace_id s
  raise_if (not (is_completed header.status)) (http 400 invalid_state)
  raise_if (is_pending header.items) (http 400 validation_error)
  stock ← for_each (reconcile_item count_id user.id header) (count_lines header) s.stock
  save count_id (record header { status = reconciled; reconciled_at = some now }) stock s

unfoldable pub cancel_count : ℕ → User → ℕ → ℕ → CountStore → Result CountStore
unfolding require save
cancel_count workspace_id user count_id now s = do
  raise_if (not (is_manager user.role)) (http 403 insufficient_permissions)
  header ← require count_id workspace_id s
  raise_if (is_closed header.status) (http 400 invalid_state)
  save count_id (record header { status = cancelled; cancelled_at = some now }) s.stock s
