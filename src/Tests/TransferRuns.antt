-- ===== src/Tests/TransferRuns.antt =====
-- A transfer of two hundred hundredths between the warehouses of the small shop.
use rezorpay_pro.Common.{
  ℕ, ℤ, zero_ℤ, pos, none, some, [], ◌∷◌, ◌≡◌, refl, Option, ok, lookup, put, ◌-ℤ◌, ◌+ℤ◌, for_each,
  sorted, map, nat_eq,
}
use rezorpay_pro.Stock.{IsLedgered, LevelKey, available, same_key, save_level, post}
use rezorpay_pro.Stock.Locate.{lock_or_create_level, create_level, load_bin, is_bin_of, is_taken}
use rezorpay_pro.Stock.Checks.{level_at, flush, all_stored}
use rezorpay_pro.Transfer.{
  StockTransfer, TransferStore, in_transit, approved, received, source_key, destination_key,
  require, all_items, is_item, save,
}
use rezorpay_pro.Transfer.Steps.{
  dispatch_transfer, receive_transfer, cancel_transfer, lines, dispatch_item, receive_item,
  return_item, return_lines, received_of, record_receipt,
}
use rezorpay_pro.Transfer.Ledgered.{
  dispatch_transfer-IsLedgered, receive_transfer-IsLedgered, cancel_transfer-IsLedgered,
}
use rezorpay_pro.Transfer.Effect.{leaving, arriving}
use rezorpay_pro.Transfer.Lifecycle.{
  Stepped, negated, dispatch_transfer-Stepped, receive_transfer-Stepped,
}
use rezorpay_pro.Transfer.RoundTrip.{cancel_transfer_undoes, receive_transfer_settles}
use rezorpay_pro.Tests.Shop.{shop-IsLedgered, key, value_of, shop}

abbrev header : StockTransfer
header = record {
  workspace_id = 1;
  transfer_number = record { prefix = "ST"; year = 2026; number = 1 };
  source_warehouse_id = 2;
  destination_warehouse_id = 5;
  status = approved;
  notes = none;
  dispatched_at = none;
  received_at = none;
  cancelled_at = none;
  cancellation_reason = none;
  created_by = 9;
  items =
      record {
        product_id = 4;
        quantity = pos 200;
        received_quantity = zero_ℤ;
        source_bin_id = 3;
        destination_bin_id = 6;
        created_at = 50;
      }
      ∷ [];
}

abbrev start : TransferStore
start = record { stock = shop; transfers = (40, header) ∷ []; counters = [] }

abbrev on_its_way : TransferStore
on_its_way = value_of start (dispatch_transfer 40 1 9 60 start)

dispatching : dispatch_transfer 40 1 9 60 start ≡ ok on_its_way
unfolding dispatch_transfer require lines dispatch_item source_key save all_items is_item flush
    all_stored lock_or_create_level available post lookup put same_key ◌-ℤ◌ ◌+ℤ◌ for_each sorted
dispatching = refl

-- One unit of the two arrives.
abbrev some_arrive : ℕ → Option ℤ
some_arrive product = some (pos 100)

abbrev arrived : TransferStore
arrived = value_of start (receive_transfer 40 1 9 some_arrive 61 on_its_way)

receiving : receive_transfer 40 1 9 some_arrive 61 on_its_way ≡ ok arrived
unfolding dispatch_transfer receive_transfer receive_item received_of destination_key create_level
    load_bin is_bin_of is_taken save_level require lines source_key save all_items is_item flush
    all_stored lock_or_create_level available post lookup put same_key ◌-ℤ◌ ◌+ℤ◌ for_each sorted
receiving = refl

abbrev called_off : TransferStore
called_off = value_of start (cancel_transfer 40 1 9 none 62 on_its_way)

cancelling : cancel_transfer 40 1 9 none 62 on_its_way ≡ ok called_off
unfolding dispatch_transfer cancel_transfer return_lines return_item require lines source_key save
    all_items is_item flush all_stored lock_or_create_level available post lookup put same_key ◌-ℤ◌
    ◌+ℤ◌ for_each sorted
cancelling = refl

cancel_transfer_undoes_example : level_at key called_off.stock ≡ level_at key start.stock
cancel_transfer_undoes_example =
    cancel_transfer_undoes 40 1 9 60 1 9 62 none start on_its_way called_off dispatching cancelling
      key

receive_transfer_settles_example :
    (t : StockTransfer) × (lookup 40 start.transfers ≡ some t)
    × ((k : LevelKey)
        → ((level_at k arrived.stock).in_transit ≡ (level_at k start.stock).in_transit)
          × ((level_at k arrived.stock).on_hand
              ≡ (level_at k start.stock).on_hand -ℤ leaving t k +ℤ arriving t some_arrive k))
receive_transfer_settles_example =
    receive_transfer_settles 40 1 9 60 1 9 61 some_arrive start on_its_way arrived dispatching
      receiving

dispatch_transfer-Stepped_example :
    (t : StockTransfer) × (t.status ≡ approved)
    × Stepped 40 t
        (record t { status = in_transit; dispatched_at = some 60 })
        (negated (leaving t))
        (leaving t)
        start
        on_its_way
dispatch_transfer-Stepped_example = dispatch_transfer-Stepped 40 1 9 start on_its_way 60 dispatching

receive_transfer-Stepped_example :
    (t : StockTransfer) × (t.status ≡ in_transit)
    × Stepped 40 t
        (record t {
          status = received;
          received_at = some 61;
          items = map (record_receipt some_arrive) t.items;
        })
        (arriving t some_arrive)
        (negated (leaving t))
        on_its_way
        arrived
receive_transfer-Stepped_example =
    receive_transfer-Stepped 40 1 9 on_its_way arrived some_arrive 61 receiving

away-IsLedgered : IsLedgered on_its_way.stock
away-IsLedgered =
    dispatch_transfer-IsLedgered 40 1 9 60 start on_its_way dispatching shop-IsLedgered

dispatch_transfer-IsLedgered_example : IsLedgered on_its_way.stock
dispatch_transfer-IsLedgered_example =
    dispatch_transfer-IsLedgered 40 1 9 60 start on_its_way dispatching shop-IsLedgered

receive_transfer-IsLedgered_example : IsLedgered arrived.stock
receive_transfer-IsLedgered_example =
    receive_transfer-IsLedgered 40 1 9 61 on_its_way arrived some_arrive receiving away-IsLedgered

cancel_transfer-IsLedgered_example : IsLedgered called_off.stock
cancel_transfer-IsLedgered_example =
    cancel_transfer-IsLedgered 40 1 9 62 on_its_way called_off none cancelling away-IsLedgered
