-- ===== src/Stock/Balance.antt =====
-- Rule 1.2 for one movement: a row of `inventory_levels` and the ledger row that explains it.
use rezorpay_pro.Common.{
  ℕ, ℤ, zero_ℤ, Bool, true, false, none, some, ◌≡◌, lookup, if◌then◌else◌, ◌+ℤ◌, sum, sum_by-put,
  sum_by-put_new, int_laws, inl, inr,
}
use rezorpay_pro.Stock.{
  Stock, LevelKey, InventoryLevel, InventoryTransaction, level_eq, save_level, post, at_bin,
  touches, on_hand_total, ledger_total, IsLedgered,
}
use rezorpay_pro.Stock.Locate.{Locked, zero_level}

-- What stands at a key counts where the key is of the bin.
abbrev share : ℕ → ℕ → ℕ → LevelKey → InventoryLevel → ℤ
share workspace product bin k l = if at_bin workspace product bin k then l.on_hand else zero_ℤ

-- A row that keeps its quantity on hand, whatever else is written to it.
pub save_level-IsLedgered :
    (key : LevelKey) (old new : InventoryLevel) (s : Stock)
    → lookup key s.levels ≡ some old
    → new.on_hand ≡ old.on_hand
    → IsLedgered s
    → IsLedgered (save_level key new s)
unfolding save_level on_hand_total ledger_total
save_level-IsLedgered key old new s found same h w p b =
    grind (int_laws, sum_by-put (share w p b) key new old s.levels found, h w p b)

-- A new row of zeros.
pub create-IsLedgered :
    (key : LevelKey) (s : Stock)
    → lookup key s.levels ≡ none
    → IsLedgered s
    → IsLedgered (save_level key zero_level s)
unfolding save_level on_hand_total ledger_total
create-IsLedgered key s absent h w p b =
    grind (int_laws, sum_by-put_new (share w p b) key zero_level s.levels absent, h w p b)

pub Locked-IsLedgered :
    (key : LevelKey) (s : Stock) (level : InventoryLevel) (s' : Stock)
    → Locked key s level s'
    → IsLedgered s
    → IsLedgered s'
Locked-IsLedgered key s level s' l h = elim l.origin [
  | inl same ↦ rw same h
  | inr (absent, _, fresh) ↦ rw fresh (create-IsLedgered key s absent h)
]

-- The arithmetic of one movement: `inside` says whether the bin in question is the key's.
moved_by :
    (inside touched : Bool) (stock stock' old new q ledger : ℤ)
    → touched ≡ inside
    → new ≡ old +ℤ q
    → stock' +ℤ (if inside then old else zero_ℤ) ≡ stock +ℤ (if inside then new else zero_ℤ)
    → stock ≡ ledger
    → stock' ≡ (if touched then q else zero_ℤ) +ℤ ledger
moved_by true true stock stock' old new q ledger c n e h = grind int_laws
moved_by false false stock stock' old new q ledger c n e h = grind int_laws
moved_by true false stock stock' old new q ledger c n e h = cc
moved_by false true stock stock' old new q ledger c n e h = cc

-- A change of the quantity on hand with a ledger row of the same quantity, at the key's bin.
pub post-IsLedgered :
    (key : LevelKey) (old new : InventoryLevel) (t : InventoryTransaction) (s : Stock)
    → lookup key s.levels ≡ some old
    → new.on_hand ≡ old.on_hand +ℤ t.quantity
    → ((w p b : ℕ) → touches w p b t ≡ at_bin w p b key)
    → IsLedgered s
    → IsLedgered (post key new t s)
unfolding post on_hand_total ledger_total sum
post-IsLedgered key old new t s found moved same h w p b =
    moved_by (at_bin w p b key) (touches w p b t) _ _ old.on_hand new.on_hand t.quantity _
      (same w p b) moved (sum_by-put (share w p b) key new old s.levels found) (h w p b)
