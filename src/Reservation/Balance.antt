-- ===== src/Reservation/Balance.antt =====
-- The invariant of services/stock_reservation_service.py under one write: the reserved column of a
-- row and the item that it holds goods for change together.
use rezorpay_pro.Common.{
  ℕ, ℤ, zero_ℤ, Bool, true, false, none, some, ◌≡◌, refl, ◌≤ℤ◌, ◌+ℤ◌, ◌-ℤ◌, max_ℤ, nat_eq, lookup,
  put, sum_by-put, sum_by-put_new, if◌then◌else◌, ok, >>=-eq-ok, ok_injective, arith, int_laws,
  le-sum_by, sym, ap, inl, inr, Bool-cases, subst, subst₂,
}
use rezorpay_pro.Stock.{Stock, LevelKey, InventoryLevel, same_key, same_key_iff, save_level}
use rezorpay_pro.Stock.Locate.{lock_or_create_level, lock_or_create_level-Locked}
use rezorpay_pro.Stock.Checks.{level_at, level_at-save_level, Locked-level_at}
use rezorpay_pro.Reservation.{
  StockReservationItem, ReservationStore, IsItem, held, held_at, IsBalanced, HasItems,
}
use rezorpay_pro.Reservation.Release.{unreserve}

-- One level rewritten, all others as they were.
abbrev pub Rewrites : LevelKey → InventoryLevel → Stock → Stock → Type 0
Rewrites key new s s' =
    (k : LevelKey) → level_at k s' ≡ (if same_key key k then new else level_at k s)

read_off : (h h' w w' new old : ℤ) → h' +ℤ w ≡ h +ℤ w' → new +ℤ w ≡ old +ℤ w' → old ≡ h → new ≡ h'
read_off h h' w w' new old e m i = grind int_laws

-- The arithmetic at one key: `c` says whether it is the key that was written.
step_at :
    (c : Bool) (h h' w w' : ℤ) (l l' row old : InventoryLevel)
    → h' +ℤ (if c then w else zero_ℤ) ≡ h +ℤ (if c then w' else zero_ℤ)
    → (c ≡ true → l ≡ old)
    → l' ≡ (if c then row else l)
    → row.reserved +ℤ w ≡ old.reserved +ℤ w'
    → l.reserved ≡ h
    → l'.reserved ≡ h'
step_at true h h' w w' l l' row old e same level moved inv =
    rw level (read_off _ _ _ _ _ _ e moved (rw (← same refl) inv))
step_at false h h' w w' l l' row old e same level moved inv = rw level (grind int_laws)

-- An item that was not there counts nothing.
pad : (c : Bool) (h h' x : ℤ) → h' ≡ h +ℤ x → h' +ℤ (if c then zero_ℤ else zero_ℤ) ≡ h +ℤ x
pad true h h' x e = grind int_laws
pad false h h' x e = grind int_laws

-- What an item counts at a key.
abbrev pub count_at : LevelKey → ℕ → StockReservationItem → ℤ
count_at k id item = if same_key item.level k then held item else zero_ℤ

-- What two items at the same key count.
counts_of :
    {a b key : LevelKey}
    → a ≡ key
    → b ≡ key
    → (w w' h h' : ℤ) (k : LevelKey)
    → h +ℤ (if same_key a k then w else zero_ℤ) ≡ h' +ℤ (if same_key b k then w' else zero_ℤ)
    → h +ℤ (if same_key key k then w else zero_ℤ) ≡ h' +ℤ (if same_key key k then w' else zero_ℤ)
counts_of p q w w' h h' k e =
    subst₂ (λ c d. h +ℤ (if c then w else zero_ℤ) ≡ h' +ℤ (if d then w' else zero_ℤ))
      (ap (λ j. same_key j k) p) (ap (λ j. same_key j k) q) e

counts_of_new :
    {b key : LevelKey}
    → b ≡ key
    → (w h h' : ℤ) (k : LevelKey) → h ≡ h' +ℤ (if same_key b k then w else zero_ℤ)
    → h ≡ h' +ℤ (if same_key key k then w else zero_ℤ)
counts_of_new q w h h' k e =
    subst (λ d. h ≡ h' +ℤ (if d then w else zero_ℤ)) (ap (λ j. same_key j k) q) e

module _ (key : LevelKey) (row : InventoryLevel) (s : ReservationStore) (stock : Stock)
    (rewrites : Rewrites key row s.stock stock) (id : ℕ) (item : StockReservationItem)
    (there : item.level ≡ key) where
  at_same : (k : LevelKey) → same_key key k ≡ true → level_at k s.stock ≡ level_at key s.stock
  at_same k same = ap (λ j. level_at j s.stock) (sym ((same_key_iff key k).0 same))

  -- An item changes, with the reserved column of its row.
  pub put-IsBalanced :
      (old : StockReservationItem)
      → lookup id s.items ≡ some old
      → old.level ≡ key
      → row.reserved +ℤ held old ≡ (level_at key s.stock).reserved +ℤ held item
      → IsBalanced s
      → IsBalanced (record s { stock = stock; items = put id item s.items })
  unfolding held_at
  put-IsBalanced old found place moved inv k =
      step_at (same_key key k) _ _ (held old) (held item) _ _ row (level_at key s.stock)
        (counts_of place there (held old) (held item) _ _ k
          (sum_by-put (count_at k) id item old s.items found))
        (at_same k) (rewrites k) moved (inv k)

  -- An item is added.
  pub add-IsBalanced :
      lookup id s.items ≡ none
      → row.reserved ≡ (level_at key s.stock).reserved +ℤ held item
      → IsBalanced s
      → IsBalanced (record s { stock = stock; items = put id item s.items })
  unfolding held_at
  add-IsBalanced absent moved inv k =
      step_at (same_key key k) _ _ zero_ℤ (held item) _ _ row (level_at key s.stock)
        (pad (same_key key k) _ _ _ (
          counts_of_new there (held item) _ _ k
            (sum_by-put_new (count_at k) id item s.items absent)))
        (at_same k) (rewrites k) (grind int_laws) (inv k)

clamp : (a q : ℤ) → q ≤ℤ a → max_ℤ zero_ℤ (a -ℤ q) ≡ a -ℤ q
clamp a q h = grind int_laws

-- `max(ZERO, …)` never bites on a quantity that the row holds.
unreserve_row :
    (key k : LevelKey) (q : ℤ) (level : InventoryLevel) (s t : Stock)
    → level ≡ level_at key s
    → level_at k t ≡ level_at k s
    → q ≤ℤ level.reserved
    → level_at k (save_level key (record level { reserved = max_ℤ zero_ℤ (level.reserved -ℤ q) }) t)
      ≡ (if same_key key k
          then record (level_at key s) { reserved = (level_at key s).reserved -ℤ q }
          else level_at k s)
unreserve_row key k q level s t row rest covered =
    rw (clamp level.reserved q covered, level_at-save_level, rest, row) refl

pub unreserve-Rewrites :
    (key : LevelKey) (q : ℤ) (s s' : Stock)
    → unreserve key q s ≡ ok s'
    → q ≤ℤ (level_at key s).reserved
    → Rewrites key (record (level_at key s) { reserved = (level_at key s).reserved -ℤ q }) s s'
unfolding unreserve
unreserve-Rewrites key q s s' h covered =
    let ((level, t), lock, h₁) = >>=-eq-ok (lock_or_create_level key s) _ h in
    let (row, rest) =
      Locked-level_at key s level t (lock_or_create_level-Locked key s level t lock) in
    subst (Rewrites key (record (level_at key s) { reserved = (level_at key s).reserved -ℤ q }) s)
      (ok_injective h₁)
      (λ k.
        unreserve_row key k q level s t row (rest k)
          (subst (λ l. q ≤ℤ l.reserved) (sym row) covered))

-- A stock that is not touched.
pub Rewrites-none : (key : LevelKey) (s : Stock) → Rewrites key (level_at key s) s s
Rewrites-none key s k = elim (Bool-cases (same_key key k)) [
  | inl same ↦ rw same (ap (λ j. level_at j s) (sym ((same_key_iff key k).0 same)))
  | inr other ↦ rw other refl
]

held_nonneg : (item : StockReservationItem) → IsItem item → zero_ℤ ≤ℤ held item
unfolding held
held_nonneg item i = grind (int_laws, i)

count_at_nonneg :
    (k : LevelKey) (id : ℕ) (item : StockReservationItem)
    → IsItem item
    → zero_ℤ ≤ℤ count_at k id item
count_at_nonneg k id item i = elim (Bool-cases (same_key item.level k)) [
  | inl same ↦ rw same (held_nonneg item i)
  | inr other ↦ rw other (omega arith)
]

-- What one item holds is part of what its row reserves.
pub held-le-reserved :
    (s : ReservationStore) (id : ℕ) (item : StockReservationItem)
    → HasItems s
    → IsBalanced s
    → lookup id s.items ≡ some item
    → held item ≤ℤ (level_at item.level s.stock).reserved
unfolding held_at
held-le-reserved s id item items inv found = rw (inv item.level) (
    rw ((same_key_iff item.level item.level).1 refl) at (
      le-sum_by IsItem (count_at item.level) (count_at_nonneg item.level) id item s.items items
        found))
