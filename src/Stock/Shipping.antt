-- ===== src/Stock/Shipping.antt =====
-- Delivery notes confirm and cancel through `post_issue` of services/inventory_ledger.py: when the
-- goods go out, what changes, and that a cancellation takes it back.
use Prim.Native.String.{String}
use rezorpay_pro.Common.{
  ℕ, ℤ, zero_ℤ, pos, Bool, true, false, Option, some, ◌≡◌, ◌↔◌, refl, ◌≤ℤ◌, ◌+ℤ◌, ◌-ℤ◌, leb_ℤ,
  ltb_ℤ, if◌then◌else◌, ok, raise_if-eq-ok, Result-cases, ok_injective, arith, int_laws, lookup,
  inl, inr, subst, Bool-cases, ◌∙◌,
}
use rezorpay_pro.Stock.{
  Stock, LevelKey, InventoryLevel, level_eq, same_key, same_key_iff, available,
}
use rezorpay_pro.Stock.Locate.{lock_or_create_level, Locked}
use rezorpay_pro.Stock.Ledger.{post_issue, issue_back, issue_out}
use rezorpay_pro.Stock.Issue.{post_issue-eq-ok}
use rezorpay_pro.Stock.Checks.{level_at, Locked-level_at, Written, post-Written}

-- A row found is the row locked.
pub lock_or_create_level_present :
    (key : LevelKey) (s : Stock) {level : InventoryLevel}
    → lookup key s.levels ≡ some level
    → lock_or_create_level key s ≡ ok (level, s)
unfolding lock_or_create_level
lock_or_create_level_present key s found = rw (found, lock_or_create_level)

pub level_at_present :
    (key : LevelKey) (s : Stock) {level : InventoryLevel}
    → lookup key s.levels ≡ some level
    → level_at key s ≡ level
unfolding level_at
level_at_present key s found = rw found refl

-- What an outgoing issue leaves behind.
pub record Shipped (key : LevelKey) (qty : ℤ) (s s' : Stock) : Type 0 where
  pub positive : pos 1 ≤ℤ qty
  pub covered : qty ≤ℤ available (level_at key s)
  pub written :
      level_at key s' ≡ record (level_at key s) { on_hand = (level_at key s).on_hand -ℤ qty }
  pub stored : lookup key s'.levels ≡ some (level_at key s')
  pub others : (k : LevelKey) → same_key key k ≡ false → level_at k s' ≡ level_at k s

module _ (key : LevelKey) (qty : ℤ) (user_id reference_id : ℕ)
    (reference_type reason : Option String) (s s' : Stock) where
  issue_out-Shipped :
      (level : InventoryLevel) (t : Stock)
      → Locked key s level t
      → leb_ℤ qty zero_ℤ ≡ false
      → issue_out key qty user_id reference_id reference_type reason level t ≡ ok s'
      → Shipped key qty s s'
  unfolding issue_out
  issue_out-Shipped level t lock p h =
      let (enough, r) = raise_if-eq-ok (ltb_ℤ (available level) qty) _ _ h in
      let (row, rest) = Locked-level_at key s level t lock in
      let w = post-Written key level _ _ s t s' lock (ok_injective r) in
      record {
        positive = ground (arith, p);
        covered = rw (← row) (ground (arith, enough));
        written = rw (← row) w.self;
        stored = rw w.self w.found;
        others = w.others;
      }

  -- A successful issue ships a positive quantity that was available, takes just that off the stock
  -- on hand of its row, and leaves every other row alone.
  pub post_issue-Shipped :
      post_issue key qty user_id reference_id false reference_type reason s ≡ ok s'
      → Shipped key qty s s'
  post_issue-Shipped h =
      let i = post_issue-eq-ok key qty user_id reference_id reference_type reason s s' false h in
      issue_out-Shipped i.level i.stock i.locked i.positive i.returned

module _ (key : LevelKey) (qty : ℤ) (user_id reference_id : ℕ)
    (reference_type reason : Option String) (s : Stock) (level : InventoryLevel)
    (found : lookup key s.levels ≡ some level) where
  -- With the row there, only the sign of the quantity is tested before the branch.
  post_issue_present :
      (reverse : Bool)
      → leb_ℤ qty zero_ℤ ≡ false
      → post_issue key qty user_id reference_id reverse reference_type reason s ≡ (
          if reverse
          then issue_back key qty user_id reference_id reference_type reason level s
          else issue_out key qty user_id reference_id reference_type reason level s)
  unfolding post_issue
  post_issue_present reverse p = rw (p, lock_or_create_level_present key s found) refl

  -- Goods that go back are taken in, on the same row.
  pub post_issue_back :
      pos 1 ≤ℤ qty
      → (s' : Stock) × (post_issue key qty user_id reference_id true reference_type reason s
          ≡ ok s')
        × Written key (record level { on_hand = level.on_hand +ℤ qty }) s s'
  unfolding issue_back
  post_issue_back p = (
    _,
    post_issue_present true (ground arith),
    post-Written key level _ _ s s _ (record { found = found; origin = inl refl }) refl,
  )

  issue_out_iff :
      ((s' : Stock) × (issue_out key qty user_id reference_id reference_type reason level s
          ≡ ok s'))
      ↔ (qty ≤ℤ available level)
  unfolding issue_out
  issue_out_iff = (
    λ (t, h). ground (arith, (raise_if-eq-ok (ltb_ℤ (available level) qty) _ _ h).0),
    λ c.
        elim (Result-cases (issue_out key qty user_id reference_id reference_type reason level s)) [
          | inl done ↦ done
          | inr (e, raised) ↦ absurd (ground (arith, c, raised))
        ],
  )

  -- Where the row exists, an issue succeeds exactly when its quantity is positive and available.
  pub post_issue_iff :
      ((s' : Stock) × (post_issue key qty user_id reference_id false reference_type reason s
          ≡ ok s'))
      ↔ ((pos 1 ≤ℤ qty) × (qty ≤ℤ available level))
  post_issue_iff = (
    λ (t, h).
        let shipped = post_issue-Shipped key qty user_id reference_id reference_type reason s t h in
        (
          shipped.positive,
          subst (λ l. qty ≤ℤ available l) (level_at_present key s found) shipped.covered,
        ),
    λ (p, c). let (t, e) = issue_out_iff.1 c in (t, post_issue_present false (ground arith) ∙ e),
  )

taken_back :
    (qty : ℤ) (l m n : InventoryLevel)
    → m ≡ record l { on_hand = l.on_hand -ℤ qty }
    → n ≡ record m { on_hand = m.on_hand +ℤ qty }
    → n ≡ l
taken_back qty l m n e f = grind int_laws

-- Cancelling a confirmed issue, by whoever and under whatever reference, succeeds and brings every
-- row of the stock back to where it was.
pub post_issue_undone :
    (key : LevelKey) (qty : ℤ) (user_id reference_id user_id' reference_id' : ℕ)
    (type reason type' reason' : Option String) (s s' : Stock)
    → post_issue key qty user_id reference_id false type reason s ≡ ok s'
    → (s'' : Stock) × (post_issue key qty user_id' reference_id' true type' reason' s' ≡ ok s'')
      × ((k : LevelKey) → level_at k s'' ≡ level_at k s)
post_issue_undone key qty u r u' r' ty reason ty' reason' s s' h =
    let out = post_issue-Shipped key qty u r ty reason s s' h in
    let (s'', done, back) =
      post_issue_back key qty u' r' ty' reason' s' (level_at key s') out.stored out.positive in
    (
      s'',
      done,
      λ k. elim (Bool-cases (same_key key k)) [
        | inl same ↦
            subst (λ j. level_at j s'' ≡ level_at j s) ((same_key_iff key k).0 same)
              (taken_back qty _ _ _ out.written back.self)
        | inr other ↦ back.others k other ∙ out.others k other
      ],
    )
