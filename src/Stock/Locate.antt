-- ===== src/Stock/Locate.antt =====
-- services/inventory_ledger.py: the scoped loads of warehouses, bins and products, and the row of
-- `inventory_levels` that a movement locks or creates. A loaded row stands as its id.
use rezorpay_pro.Common.{
  Error, ap, ok_injective, Bool-cases, ℕ, zero_ℤ, Bool, false, not, ◌&&◌, ◌||◌, Option, none, some,
  [], ◌∷◌, ◌≡◌, Table, ◌==◌, lookup, if◌then◌else◌, Result, ok, http, integrity, not_found,
  validation_error, ◌>>=◌, ◌>>◌, raise_if, or_raise, ltb, nat_eq, ◌⊎◌, inl, inr, Option-cases,
  lookup-put_self, raise_if-eq-ok, >>=-eq-ok, arith,
}
use rezorpay_pro.Stock.{Stock, WarehouseBin, LevelKey, InventoryLevel, level_eq, save_level}

-- `scalar_one_or_none` of a row with a condition on its columns.
abbrev pub only_if {ℓ} : {A : Type ℓ} → (A → Bool) → Option A → Option A
only_if p none = none
only_if p (some a) = if p a then some a else none

-- A row that was loaded was there.
pub found_of_ok :
    {A : Type 0} (p : A → Bool) (o : Option A) (e : Error) (a : A)
    → or_raise (only_if p o) e ≡ ok a
    → o ≡ some a
found_of_ok p none e a h = cc
found_of_ok p (some b) e a h = elim (Bool-cases (p b)) [
  | inl passed ↦ ap some (ok_injective (rw passed at h))
  | inr failed ↦ absurd (ground (arith, failed, h))
]

unfoldable pub load_warehouse : ℕ → ℕ → Stock → Result ℕ
load_warehouse warehouse_id workspace_id s = do
  warehouse ←
      or_raise (only_if (λ w. w.workspace_id == workspace_id) (lookup warehouse_id s.warehouses))
        (http 404 not_found)
  raise_if (not warehouse.is_active) (http 400 validation_error)
  ok warehouse_id

-- The join of a bin with its warehouse: the bin is of that warehouse, and that of the workspace.
unfoldable pub is_bin_of : ℕ → ℕ → Stock → WarehouseBin → Bool
is_bin_of warehouse_id workspace_id s b =
    b.warehouse_id == warehouse_id && elim (lookup b.warehouse_id s.warehouses) [
      | none ↦ false
      | some w ↦ w.workspace_id == workspace_id
    ]

unfoldable pub load_bin : ℕ → ℕ → ℕ → Stock → Result ℕ
unfolding is_bin_of
load_bin bin_id warehouse_id workspace_id s = do
  wh_bin ←
      or_raise (only_if (is_bin_of warehouse_id workspace_id s) (lookup bin_id s.bins))
        (http 404 not_found)
  raise_if (not wh_bin.is_active) (http 400 validation_error)
  ok bin_id

-- `order_by(code.asc()).limit(1)` over the rows that pass: the first with the smallest code.
abbrev pub earlier : ℕ × WarehouseBin → Option (ℕ × WarehouseBin) → Option (ℕ × WarehouseBin)
earlier x none = some x
earlier x (some y) = if ltb y.1.code x.1.code then some y else some x

unfoldable pub first_by_code :
    (WarehouseBin → Bool) → Table ℕ WarehouseBin → Option (ℕ × WarehouseBin)
first_by_code p [] = none
first_by_code p (x ∷ t) = let rest = first_by_code p t in if p x.1 then earlier x rest else rest

unfoldable pub first_active_bin : ℕ → ℕ → Stock → Result ℕ
unfolding is_bin_of first_by_code
first_active_bin warehouse_id workspace_id s = do
  found ←
      or_raise (first_by_code (λ b. is_bin_of warehouse_id workspace_id s b && b.is_active) s.bins)
        (http 400 validation_error)
  ok found.0

unfoldable pub resolve_header_bin : ℕ → ℕ → Option ℕ → Stock → Result ℕ
unfolding load_warehouse load_bin first_active_bin
resolve_header_bin warehouse_id workspace_id bin_id s = do
  w ← load_warehouse warehouse_id workspace_id s
  elim bin_id [
    | none ↦ first_active_bin warehouse_id workspace_id s
    | some b ↦ load_bin b warehouse_id workspace_id s
  ]

unfoldable pub load_product : ℕ → ℕ → Stock → Result ℕ
load_product product_id workspace_id s = do
  product ←
      or_raise
        (only_if (λ p. p.workspace_id == workspace_id && not p.is_deleted)
          (lookup product_id s.products))
        (http 404 not_found)
  ok product_id

abbrev pub zero_level : InventoryLevel
zero_level = record { on_hand = zero_ℤ; reserved = zero_ℤ; damaged = zero_ℤ; in_transit = zero_ℤ }

-- `uq_inventory_product_bin`.
unfoldable pub is_taken : LevelKey → Table LevelKey InventoryLevel → Bool
is_taken key [] = false
is_taken key ((k, l) ∷ t) =
    (k.product_id == key.product_id && k.bin_id == key.bin_id) || is_taken key t

-- The insert of a new row, which its flush may refuse.
unfoldable pub create_level : LevelKey → Stock → Result (InventoryLevel × Stock)
unfolding load_bin is_taken save_level
create_level key s = do
  b ← load_bin key.bin_id key.warehouse_id key.workspace_id s
  raise_if (is_taken key s.levels) integrity
  ok (zero_level, save_level key zero_level s)

unfoldable pub lock_or_create_level : LevelKey → Stock → Result (InventoryLevel × Stock)
unfolding create_level
lock_or_create_level key s = elim (lookup key s.levels) [
  | none ↦ create_level key s
  | some level ↦ ok (level, s)
]

-- What a caller may rely on: the level is the row of the key in the new stock, which differs from
-- the old stock by a row of zeros at most.
pub record Locked (key : LevelKey) (s : Stock) (level : InventoryLevel) (s' : Stock) : Type 0 where
  pub found : lookup key s'.levels ≡ some level
  pub origin :
      (s' ≡ s)
      ⊎ ((lookup key s.levels ≡ none) × (level ≡ zero_level) × (s' ≡ save_level key zero_level s))

create_level-Locked :
    (key : LevelKey) (s : Stock) (level : InventoryLevel) (s' : Stock)
    → lookup key s.levels ≡ none
    → create_level key s ≡ ok (level, s')
    → Locked key s level s'
unfolding create_level
create_level-Locked key s level s' absent h =
    let (b, _, h₁) = >>=-eq-ok (load_bin key.bin_id key.warehouse_id key.workspace_id s) _ h in
    let (_, h₂) = raise_if-eq-ok (is_taken key s.levels) integrity _ h₁ in
    record {
      found = ground (arith, lookup-put_self key zero_level s.levels);
      origin = inr (absent, ground arith, ground arith);
    }

pub lock_or_create_level-Locked :
    (key : LevelKey) (s : Stock) (level : InventoryLevel) (s' : Stock)
    → lock_or_create_level key s ≡ ok (level, s')
    → Locked key s level s'
unfolding lock_or_create_level
lock_or_create_level-Locked key s level s' h = elim (Option-cases (lookup key s.levels)) [
  | inl absent ↦ create_level-Locked key s level s' absent (rw (absent, lock_or_create_level) at h)
  | inr (l, present) ↦ record { found = ground (arith, present); origin = inl (ground arith) }
]
