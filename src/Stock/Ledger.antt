-- ===== src/Stock/Ledger.antt =====
-- services/inventory_ledger.py: `post_issue` and `adjust`, the writers of ISSUE and ADJUSTMENT rows.
-- `qty_dec` is the identity on a Decimal. The level that a call returns is the row of its key.
use Prim.Native.String.{String, len}
use rezorpay_pro.Common.{
  ◌==◌, ℕ, ℤ, zero_ℤ, Bool, true, false, not, Option, none, some, ◌-ℤ◌, ◌+ℤ◌, leb_ℤ, ltb_ℤ, eq_ℤ,
  if◌then◌else◌, Result, ok, http, validation_error, insufficient_permissions, ◌>>=◌, ◌>>◌,
  raise_if,
}
use rezorpay_pro.Stock.{
  Stock, LevelKey, InventoryLevel, InventoryTransaction, issue, adjustment, available, post,
}
use rezorpay_pro.Stock.Locate.{lock_or_create_level, load_product, load_warehouse, load_bin}

-- models/user.py.
pub data UserRole : Type 0 where
  owner admin member : UserRole

pub record User : Type 0 where
  pub id : ℕ
  pub role : UserRole

-- `user.role in (OWNER, ADMIN)`.
abbrev pub is_manager : UserRole → Bool
is_manager member = false
is_manager _ = true

-- `reference_type or d`, where an empty text counts as none.
abbrev pub or_else : Option String → String → Option String
or_else none d = some d
or_else (some r) d = if len r == 0 then some d else some r

-- The two branches of `post_issue` under the lock: the goods go back, or go out.
unfoldable pub issue_back :
    LevelKey → ℤ → ℕ → ℕ → Option String → Option String → InventoryLevel → Stock → Result Stock
unfolding post
issue_back key qty user_id reference_id reference_type reason level s = ok (
    post key (record level { on_hand = level.on_hand +ℤ qty })
      (record {
        workspace_id = key.workspace_id;
        product_id = key.product_id;
        transaction_type = issue;
        quantity = qty;
        source_bin_id = none;
        destination_bin_id = some key.bin_id;
        reference_type = or_else reference_type "DN_CANCEL";
        reference_id = some reference_id;
        reason = reason;
        notes = none;
        user_id = user_id;
      })
      s)

unfoldable pub issue_out :
    LevelKey → ℤ → ℕ → ℕ → Option String → Option String → InventoryLevel → Stock → Result Stock
unfolding available post
issue_out key qty user_id reference_id reference_type reason level s = do
  raise_if (ltb_ℤ (available level) qty) (http 400 validation_error)
  ok (
      post key (record level { on_hand = level.on_hand -ℤ qty })
        (record {
          workspace_id = key.workspace_id;
          product_id = key.product_id;
          transaction_type = issue;
          quantity = zero_ℤ -ℤ qty;
          source_bin_id = some key.bin_id;
          destination_bin_id = none;
          reference_type = or_else reference_type "DN";
          reference_id = some reference_id;
          reason = reason;
          notes = none;
          user_id = user_id;
        })
        s)

unfoldable pub post_issue :
    LevelKey → ℤ → ℕ → ℕ → Bool → Option String → Option String → Stock → Result Stock
unfolding issue_back issue_out lock_or_create_level
post_issue key qty user_id reference_id reverse reference_type reason s = do
  raise_if (leb_ℤ qty zero_ℤ) (http 400 validation_error)
  (level, s') ← lock_or_create_level key s
  if reverse
      then issue_back key qty user_id reference_id reference_type reason level s'
      else issue_out key qty user_id reference_id reference_type reason level s'

unfoldable pub adjustment_row : LevelKey → User → ℤ → String → String → InventoryTransaction
adjustment_row key user qty reason notes = record {
  workspace_id = key.workspace_id;
  product_id = key.product_id;
  transaction_type = adjustment;
  quantity = qty;
  source_bin_id = if ltb_ℤ qty zero_ℤ then some key.bin_id else none;
  destination_bin_id = if ltb_ℤ zero_ℤ qty then some key.bin_id else none;
  reference_type = some "ADJUSTMENT";
  reference_id = none;
  reason = some reason;
  notes = some notes;
  user_id = user.id;
}

unfoldable pub adjust : LevelKey → User → ℤ → String → String → Stock → Result Stock
unfolding adjustment_row load_product load_warehouse load_bin lock_or_create_level post
adjust key user qty reason notes s = do
  raise_if (not (is_manager user.role)) (http 403 insufficient_permissions)
  p ← load_product key.product_id key.workspace_id s
  w ← load_warehouse key.warehouse_id key.workspace_id s
  b ← load_bin key.bin_id key.warehouse_id key.workspace_id s
  raise_if (eq_ℤ qty zero_ℤ) (http 400 validation_error)
  (level, s') ← lock_or_create_level key s
  let next_on_hand = level.on_hand +ℤ qty
  raise_if (ltb_ℤ next_on_hand zero_ℤ) (http 400 validation_error)
  ok (
      post key (record level { on_hand = next_on_hand }) (adjustment_row key user qty reason notes)
        s')
