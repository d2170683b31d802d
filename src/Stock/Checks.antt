-- ===== src/Stock/Checks.antt =====
-- The CHECK constraints of `inventory_levels`, which a flush enforces, and the rows as a total map.
use rezorpay_pro.Common.{
  zero_ℤ, Bool, true, false, not, ◌&&◌, Option, none, some, [], ◌∷◌, ◌≡◌, refl, Table, lookup,
  if◌then◌else◌, ◌≤ℤ◌, leb_ℤ, arith, inl, inr, lookup-put, lookup-put_self, AllRows, AllRows-put,
  Result, ok, integrity, ◌>>◌, raise_if, AllRows-lookup, Option-cases, Bool-cases,
}
use rezorpay_pro.Stock.{
  Stock, LevelKey, InventoryLevel, InventoryTransaction, level_eq, same_key, same_key_iff,
  save_level, post,
}
use rezorpay_pro.Stock.Locate.{Locked, zero_level}

-- The four CHECK constraints of a row.
pub record IsStored (l : InventoryLevel) : Type 0 where
  pub on_hand_nonneg : zero_ℤ ≤ℤ l.on_hand
  pub reserved_nonneg : zero_ℤ ≤ℤ l.reserved
  pub damaged_nonneg : zero_ℤ ≤ℤ l.damaged
  pub in_transit_nonneg : zero_ℤ ≤ℤ l.in_transit

pub is_stored : InventoryLevel → Bool
is_stored l =
    leb_ℤ zero_ℤ l.on_hand
    && leb_ℤ zero_ℤ l.reserved
    && leb_ℤ zero_ℤ l.damaged
    && leb_ℤ zero_ℤ l.in_transit

pub is_stored_sound : (l : InventoryLevel) → is_stored l ≡ true → IsStored l
unfolding is_stored
is_stored_sound l h = ground arith

pub is_stored_complete : (l : InventoryLevel) → IsStored l → is_stored l ≡ true
unfolding is_stored
is_stored_complete l h = ground arith

unfoldable pub all_stored : Table LevelKey InventoryLevel → Bool
unfolding is_stored
all_stored [] = true
all_stored ((k, l) ∷ t) = is_stored l && all_stored t

-- `session.flush()`, for the rows of the levels.
unfoldable pub flush : Stock → Result Stock
unfolding all_stored
flush s = do raise_if (not (all_stored s.levels)) integrity; ok s

abbrev pub HasChecks : Stock → Type 0
HasChecks s = AllRows IsStored s.levels

all_stored_complete : (t : Table LevelKey InventoryLevel) → AllRows IsStored t → all_stored t ≡ true
unfolding all_stored AllRows
all_stored_complete [] h = refl
all_stored_complete ((k, l) ∷ t) h = rw (is_stored_complete l h.0, all_stored_complete t h.1)

all_stored_sound : (t : Table LevelKey InventoryLevel) → all_stored t ≡ true → AllRows IsStored t
unfolding all_stored AllRows
all_stored_sound [] h = tt
all_stored_sound ((k, l) ∷ t) h =
    (is_stored_sound l (ground arith), all_stored_sound t (ground arith))

-- A flush changes nothing and is refused exactly where a constraint is broken.
pub flush-eq-ok : (s s' : Stock) → flush s ≡ ok s' → (s' ≡ s) × HasChecks s
unfolding flush
flush-eq-ok s s' h = elim (Bool-cases (all_stored s.levels)) [
  | inl good ↦ (ground (arith, good), all_stored_sound s.levels good)
  | inr bad ↦ absurd (ground (arith, bad))
]

pub flush_of_HasChecks : (s : Stock) → HasChecks s → flush s ≡ ok s
unfolding flush
flush_of_HasChecks s h = rw (all_stored_complete s.levels h)

-- The row of a key, or the zeros that `lock_or_create_level` would insert.
abbrev pub or_zeros : Option InventoryLevel → InventoryLevel
or_zeros none = zero_level
or_zeros (some l) = l

unfoldable pub level_at : LevelKey → Stock → InventoryLevel
level_at key s = or_zeros (lookup key s.levels)

pub level_at-post :
    (key k : LevelKey) (new : InventoryLevel) (t : InventoryTransaction) (s : Stock)
    → level_at k (post key new t s) ≡ (if same_key key k then new else level_at k s)
unfolding level_at post
level_at-post key k new t s = rw lookup-put (ground arith)

pub level_at-save_level :
    (key k : LevelKey) (new : InventoryLevel) (s : Stock)
    → level_at k (save_level key new s) ≡ (if same_key key k then new else level_at k s)
unfolding level_at save_level
level_at-save_level key k new s = rw lookup-put (ground arith)

pub Locked-level_at :
    (key : LevelKey) (s : Stock) (level : InventoryLevel) (s' : Stock)
    → Locked key s level s'
    → (level ≡ level_at key s) × ((k : LevelKey) → level_at k s' ≡ level_at k s)
unfolding level_at
Locked-level_at key s level s' l = elim l.origin [
  | inl same ↦ (rw (← same, l.found) refl, λ k. rw same refl)
  | inr (absent, zeros, fresh) ↦ (
    rw absent zeros,
    λ k. rw (fresh, level_at-save_level) (ground (arith, same_key_iff key k, absent)),
  )
]

pub level_at-IsStored : (key : LevelKey) (s : Stock) → HasChecks s → IsStored (level_at key s)
unfolding level_at
level_at-IsStored key s h = elim (Option-cases (lookup key s.levels)) [
  | inl absent ↦ rw absent (ground arith)
  | inr (l, present) ↦ rw present (AllRows-lookup IsStored key l s.levels h present)
]

pub post-HasChecks :
    (key : LevelKey) (new : InventoryLevel) (t : InventoryTransaction) (s : Stock)
    → HasChecks s
    → IsStored new
    → HasChecks (post key new t s)
unfolding post
post-HasChecks key new t s h n = AllRows-put IsStored key new s.levels h n

pub save_level-HasChecks :
    (key : LevelKey) (new : InventoryLevel) (s : Stock)
    → HasChecks s
    → IsStored new
    → HasChecks (save_level key new s)
unfolding save_level
save_level-HasChecks key new s h n = AllRows-put IsStored key new s.levels h n

pub Locked-HasChecks :
    (key : LevelKey) (s : Stock) (level : InventoryLevel) (s' : Stock)
    → Locked key s level s'
    → HasChecks s
    → HasChecks s'
Locked-HasChecks key s level s' l h = elim l.origin [
  | inl same ↦ rw same h
  | inr (_, _, fresh) ↦ rw fresh (save_level-HasChecks key zero_level s h (ground arith))
]

-- One row written, and no other.
pub record Written (key : LevelKey) (new : InventoryLevel) (s s' : Stock) : Type 0 where
  pub found : lookup key s'.levels ≡ some new
  pub self : level_at key s' ≡ new
  pub others : (k : LevelKey) → same_key key k ≡ false → level_at k s' ≡ level_at k s

pub post-Written :
    (key : LevelKey) (level new : InventoryLevel) (txn : InventoryTransaction) (s t s' : Stock)
    → Locked key s level t
    → post key new txn t ≡ s'
    → Written key new s s'
post-Written key level new txn s t s' lock e = rw (← e) (record {
  found = unfold post in lookup-put_self key new t.levels;
  self = rw (level_at-post, (same_key_iff key key).1 refl) refl;
  others = λ k ne. rw (level_at-post, ne) ((Locked-level_at key s level t lock).1 k);
})
