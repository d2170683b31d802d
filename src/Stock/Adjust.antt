-- ===== src/Stock/Adjust.antt =====
-- What `adjust` of services/inventory_ledger.py does to the stock, and what it does not test.
use Prim.Native.String.{String}
use rezorpay_pro.Common.{
  ℕ, ℤ, zero_ℤ, true, false, not, some, ◌≡◌, refl, ◌≤ℤ◌, ◌+ℤ◌, ltb_ℤ, eq_ℤ, ok, raise_if-eq-ok,
  >>=-eq-ok, ok_injective, arith, int_laws, lookup,
}
use rezorpay_pro.Stock.{
  Stock, LevelKey, InventoryLevel, level_eq, post, available, IsLedgered, touches, at_bin,
}
use rezorpay_pro.Stock.Locate.{
  lock_or_create_level, Locked, lock_or_create_level-Locked, load_product, load_warehouse, load_bin,
}
use rezorpay_pro.Stock.Ledger.{User, is_manager, adjust, adjustment_row}
use rezorpay_pro.Stock.Balance.{post-IsLedgered, Locked-IsLedgered}
use rezorpay_pro.Stock.Shipping.{lock_or_create_level_present, level_at_present}
use rezorpay_pro.Stock.Checks.{
  HasChecks, IsStored, level_at, Locked-level_at, level_at-IsStored, post-HasChecks,
  Locked-HasChecks, Written, post-Written,
}

-- What a successful adjustment has tested and done.
pub record Adjusted (key : LevelKey) (user : User) (qty : ℤ) (s s' : Stock) : Type 0 where
  pub manager : is_manager user.role ≡ true
  pub moved : eq_ℤ qty zero_ℤ ≡ false
  pub nonneg : zero_ℤ ≤ℤ (level_at key s).on_hand +ℤ qty
  pub written :
      Written key (record (level_at key s) { on_hand = (level_at key s).on_hand +ℤ qty }) s s'

not_below : (a : ℤ) → zero_ℤ ≤ℤ a → ltb_ℤ a zero_ℤ ≡ false
not_below a nn = ground arith

short_stock :
    (qty : ℤ) (l level : InventoryLevel)
    → l ≡ level
    → ltb_ℤ (level.on_hand +ℤ qty) (level.reserved +ℤ level.damaged) ≡ true
    → ltb_ℤ (available (record l { on_hand = l.on_hand +ℤ qty })) zero_ℤ ≡ true
unfolding available
short_stock qty l level e short = grind int_laws

module _ (key : LevelKey) (user : User) (qty : ℤ) (reason notes : String) (s : Stock) where
  adjustment_row-touches :
      eq_ℤ qty zero_ℤ ≡ false
      → (w p b : ℕ) → touches w p b (adjustment_row key user qty reason notes) ≡ at_bin w p b key
  unfolding adjustment_row
  adjustment_row-touches nz w p b = ground arith

  adjusted-IsStored :
      (level : InventoryLevel)
      → IsStored level
      → ltb_ℤ (level.on_hand +ℤ qty) zero_ℤ ≡ false
      → IsStored (record level { on_hand = level.on_hand +ℤ qty })
  adjusted-IsStored level old nn = ground arith

  Adjusted-level :
      (s' t : Stock) (level : InventoryLevel)
      → is_manager user.role ≡ true
      → eq_ℤ qty zero_ℤ ≡ false
      → Locked key s level t
      → ltb_ℤ (level.on_hand +ℤ qty) zero_ℤ ≡ false
      → post key
          (record level { on_hand = level.on_hand +ℤ qty })
          (adjustment_row key user qty reason notes)
          t
        ≡ s'
      → Adjusted key user qty s s' × (IsLedgered s → IsLedgered s') × (HasChecks s → HasChecks s')
  Adjusted-level s' t level m nz lock nn e =
      let row = (Locked-level_at key s level t lock).0 in
      (
        record {
          manager = m;
          moved = nz;
          nonneg = rw (← row) (ground arith);
          written = rw (← row) (post-Written key level _ _ s t s' lock e);
        },
        λ l. rw (← e) (
            post-IsLedgered key level _ _ t lock.found (unfold adjustment_row in refl)
              (adjustment_row-touches nz) (Locked-IsLedgered key s level t lock l)),
        λ h. rw (← e) (
            post-HasChecks key _ _ t (Locked-HasChecks key s level t lock h)
              (adjusted-IsStored level (rw row (level_at-IsStored key s h)) nn)),
      )

  adjust-eq-ok :
      (s' : Stock)
      → adjust key user qty reason notes s ≡ ok s'
      → Adjusted key user qty s s' × (IsLedgered s → IsLedgered s') × (HasChecks s → HasChecks s')
  unfolding adjust
  adjust-eq-ok s' h =
      let (m, h₁) = raise_if-eq-ok (not (is_manager user.role)) _ _ h in
      let (p, _, h₂) = >>=-eq-ok (load_product key.product_id key.workspace_id s) _ h₁ in
      let (w, _, h₃) = >>=-eq-ok (load_warehouse key.warehouse_id key.workspace_id s) _ h₂ in
      let (b, _, h₄) = >>=-eq-ok (load_bin key.bin_id key.warehouse_id key.workspace_id s) _ h₃ in
      let (nz, h₅) = raise_if-eq-ok (eq_ℤ qty zero_ℤ) _ _ h₄ in
      let ((level, t), lock, h₆) = >>=-eq-ok (lock_or_create_level key s) _ h₅ in
      let (nn, h₇) = raise_if-eq-ok (ltb_ℤ (level.on_hand +ℤ qty) zero_ℤ) _ _ h₆ in
      Adjusted-level s' t level (ground arith) nz (lock_or_create_level-Locked key s level t lock)
        nn (ok_injective h₇)

  -- A successful adjustment was made by a manager, by a quantity other than zero, and left the row
  -- with a stock on hand that is not negative: the old one and the quantity. It wrote no other row.
  pub adjust-Adjusted :
      (s' : Stock) → adjust key user qty reason notes s ≡ ok s' → Adjusted key user qty s s'
  adjust-Adjusted s' h = (adjust-eq-ok s' h).0

  -- Where the ledger accounts for the stock on hand of every bin and all rows pass the CHECK
  -- constraints, the same holds behind an adjustment.
  pub adjust-IsLedgered :
      (s' : Stock)
      → adjust key user qty reason notes s ≡ ok s'
      → IsLedgered s
      → HasChecks s
      → IsLedgered s' × HasChecks s'
  adjust-IsLedgered s' h l c = ((adjust-eq-ok s' h).1 l, (adjust-eq-ok s' h).2 c)

  -- The rule `on_hand >= reserved + damaged` of the inventory rules is not tested: where the product is
  -- there, and the warehouse and the bin are there and active, an adjustment by a manager of an
  -- existing row, by a quantity other than zero that keeps the stock on hand at zero or more, goes
  -- through although less is left than is reserved and damaged, and then the available stock is
  -- negative.
  pub adjust_below_reserved :
      (level : InventoryLevel)
      → is_manager user.role ≡ true
      → load_product key.product_id key.workspace_id s ≡ ok key.product_id
      → load_warehouse key.warehouse_id key.workspace_id s ≡ ok key.warehouse_id
      → load_bin key.bin_id key.warehouse_id key.workspace_id s ≡ ok key.bin_id
      → lookup key s.levels ≡ some level
      → zero_ℤ ≤ℤ level.on_hand +ℤ qty
      → eq_ℤ qty zero_ℤ ≡ false
      → ltb_ℤ (level.on_hand +ℤ qty) (level.reserved +ℤ level.damaged) ≡ true
      → (s' : Stock) × (adjust key user qty reason notes s ≡ ok s')
        × (ltb_ℤ (available (level_at key s')) zero_ℤ ≡ true)
  unfolding adjust
  adjust_below_reserved level m lp lw lb found nn nz short =
      let s' =
        post key (record level { on_hand = level.on_hand +ℤ qty })
          (adjustment_row key user qty reason notes) s in
      let done : adjust key user qty reason notes s ≡ ok s' =
        rw (m, lp, lw, lb, nz, lock_or_create_level_present key s found, not_below _ nn) refl in
      (
        s',
        done,
        rw (adjust-Adjusted s' done).written.self
            (short_stock qty _ level (level_at_present key s found) short),
      )
