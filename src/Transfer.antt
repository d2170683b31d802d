-- ===== src/Transfer.antt =====
-- backend/app/models/stock_transfer.py and services/stock_transfer_service.py: the transfers between
-- warehouses and their life. `year` is the year of the clock.
pub mod Steps
pub mod Effect
pub mod Totals
pub mod Lifecycle
pub mod RoundTrip
pub mod Ledgered
use Prim.Native.String.{String}
use rezorpay_pro.Common.{
  ℕ, ℤ, zero_ℤ, Bool, true, false, not, ◌&&◌, Option, none, some, List, [], ◌∷◌, Table, ◌==◌, ltb_ℤ,
  lookup, put, Result, ok, http, integrity, not_found, validation_error, invalid_state, raise_if,
  or_raise, leb_ℤ, ◌>>=◌, ◌>>◌, nat_eq,
}
use rezorpay_pro.Numbers.{DocumentNumber, Counters, generate_transfer_number}
use rezorpay_pro.Stock.{Stock, LevelKey, transfer}
use rezorpay_pro.Stock.Locate.{only_if, load_warehouse, load_bin, first_active_bin, load_product}
use rezorpay_pro.Stock.Checks.{flush}

pub data TransferStatus : Type 0 where
  draft approved in_transit received cancelled : TransferStatus

pub record StockTransferItem : Type 0 where
  pub product_id : ℕ
  pub quantity : ℤ
  pub received_quantity : ℤ
  pub source_bin_id : ℕ
  pub destination_bin_id : ℕ
  pub created_at : ℕ

pub record StockTransfer : Type 0 where
  pub workspace_id : ℕ
  pub transfer_number : DocumentNumber
  pub source_warehouse_id : ℕ
  pub destination_warehouse_id : ℕ
  pub status : TransferStatus
  pub notes : Option String
  pub dispatched_at : Option ℕ
  pub received_at : Option ℕ
  pub cancelled_at : Option ℕ
  pub cancellation_reason : Option String
  pub created_by : ℕ
  pub items : List StockTransferItem

pub record TransferStore : Type 0 where
  pub stock : Stock
  pub transfers : Table ℕ StockTransfer
  pub counters : Counters

-- The rows that an item moves between.
unfoldable pub source_key : StockTransfer → StockTransferItem → LevelKey
source_key header item = record {
  workspace_id = header.workspace_id;
  product_id = item.product_id;
  warehouse_id = header.source_warehouse_id;
  bin_id = item.source_bin_id;
}

unfoldable pub destination_key : StockTransfer → StockTransferItem → LevelKey
destination_key header item = record {
  workspace_id = header.workspace_id;
  product_id = item.product_id;
  warehouse_id = header.destination_warehouse_id;
  bin_id = item.destination_bin_id;
}

unfoldable pub require : ℕ → ℕ → TransferStore → Result StockTransfer
require transfer_id workspace_id s =
    or_raise (only_if (λ t. t.workspace_id == workspace_id) (lookup transfer_id s.transfers))
      (http 404 not_found)

-- The CHECK constraints of a transfer and its items.
unfoldable pub is_item : StockTransferItem → Bool
is_item item =
    ltb_ℤ zero_ℤ item.quantity
    && leb_ℤ zero_ℤ item.received_quantity
    && leb_ℤ item.received_quantity item.quantity

unfoldable pub all_items : List StockTransferItem → Bool
unfolding is_item
all_items [] = true
all_items (item ∷ items) = is_item item && all_items items

-- The header is written and flushed with the stock.
unfoldable pub save : ℕ → StockTransfer → Stock → TransferStore → Result TransferStore
unfolding flush all_items
save id header stock s = do
  raise_if (not (all_items header.items)) integrity
  stock' ← flush stock
  ok (record s { stock = stock'; transfers = put id header s.transfers })

-- A row of the request; the bins are optional.
pub record RequestRow : Type 0 where
  pub product_id : ℕ
  pub quantity : ℤ
  pub source_bin_id : Option ℕ
  pub destination_bin_id : Option ℕ

unfoldable pub resolve_bin : ℕ → ℕ → Option ℕ → Stock → Result ℕ
unfolding load_bin first_active_bin
resolve_bin workspace_id warehouse_id none s = first_active_bin warehouse_id workspace_id s
resolve_bin workspace_id warehouse_id (some bin) s = load_bin bin warehouse_id workspace_id s

unfoldable pub create_items :
    ℕ → ℕ → ℕ → ℕ → Stock → List RequestRow → Result (List StockTransferItem)
unfolding load_product resolve_bin
create_items workspace_id source destination now stock [] = ok []
create_items workspace_id source destination now stock (row ∷ rows) = do
  product ← load_product row.product_id workspace_id stock
  from_bin ← resolve_bin workspace_id source row.source_bin_id stock
  to_bin ← resolve_bin workspace_id destination row.destination_bin_id stock
  items ← create_items workspace_id source destination now stock rows
  ok (
      record {
        product_id = product;
        quantity = row.quantity;
        received_quantity = zero_ℤ;
        source_bin_id = from_bin;
        destination_bin_id = to_bin;
        created_at = now;
      }
      ∷ items)

abbrev pub is_present {ℓ} : {A : Type ℓ} → Option A → Bool
is_present none = false
is_present (some a) = true

unfoldable pub create_transfer :
    ℕ
    → ℕ
    → ℕ
    → ℕ
    → Option String
    → ℕ
    → ℕ
    → ℕ
    → List RequestRow
    → TransferStore
    → Result TransferStore
unfolding load_warehouse create_items save generate_transfer_number
create_transfer workspace_id user_id source destination notes year new_id now rows s = do
  source_wh ← load_warehouse source workspace_id s.stock
  dest_wh ← load_warehouse destination workspace_id s.stock
  raise_if (source_wh == dest_wh) (http 400 validation_error)
  let (number, counters) = generate_transfer_number year workspace_id none s.counters
  raise_if (is_present (lookup new_id s.transfers)) integrity
  items ← create_items workspace_id source destination now s.stock rows
  save new_id
      (record {
        workspace_id = workspace_id;
        transfer_number = number;
        source_warehouse_id = source;
        destination_warehouse_id = destination;
        status = draft;
        notes = notes;
        dispatched_at = none;
        received_at = none;
        cancelled_at = none;
        cancellation_reason = none;
        created_by = user_id;
        items = items;
      })
      s.stock (record s { counters = counters })

abbrev pub is_draft : TransferStatus → Bool
is_draft draft = true
is_draft _ = false

unfoldable pub approve_transfer : ℕ → ℕ → TransferStore → Result TransferStore
unfolding require save
approve_transfer transfer_id workspace_id s = do
  header ← require transfer_id workspace_id s
  raise_if (not (is_draft header.status)) (http 400 invalid_state)
  save transfer_id (record header { status = approved }) s.stock s
