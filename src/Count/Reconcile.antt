-- ===== src/Count/Reconcile.antt =====
-- Reconciling a count (services/stock_count_service.py): every row of the stock moves by what its
-- items were off, and the ledger explains it.
use rezorpay_pro.Common.{
  ℕ, ℤ, zero_ℤ, Bool, true, false, not, some, List, [], ◌∷◌, ◌≡◌, refl, ◌+ℤ◌, eq_ℤ, if◌then◌else◌,
  nat_eq, lookup, put, ok, >>=-eq-ok, raise_if-eq-ok, ok_injective, arith, int_laws, sum, for_each,
  for_each_inv, subst, sym, ap, ◌∙◌, inl, inr, Bool-cases, ◌==◌,
}
use rezorpay_pro.Stock.{Stock, LevelKey, InventoryLevel, same_key, IsLedgered, touches, at_bin}
use rezorpay_pro.Stock.Locate.{lock_or_create_level, lock_or_create_level-Locked, found_of_ok}
use rezorpay_pro.Stock.Ledger.{User, is_manager}
use rezorpay_pro.Stock.Checks.{level_at-post, flush, flush-eq-ok, HasChecks}
use rezorpay_pro.Stock.Balance.{post-IsLedgered, Locked-IsLedgered}
use rezorpay_pro.Stock.Moves.{Moves, Moves-as, Moves-none, at, still, row-Moves, for_each-Moves}
use rezorpay_pro.Count.{
  reconciled, StockCount, StockCountItem, CountStore, variance, require, save, all_items,
}
use rezorpay_pro.Count.Steps.{
  reconcile_count, reconcile_item, correct_level, count_lines, item_key, count_row, is_completed,
  is_pending,
}

-- What the items of a count are off at a row, together.
unfoldable pub corrections : StockCount → LevelKey → ℤ
corrections header k =
    sum (λ line. at (item_key header line) (variance line) k) (count_lines header)

no_variance : (q : ℤ) → eq_ℤ q zero_ℤ ≡ true → q ≡ zero_ℤ
no_variance q h = grind int_laws

at_zero : (c : Bool) → zero_ℤ ≡ (if c then zero_ℤ else zero_ℤ)
at_zero true = refl
at_zero false = refl

on_hand_only :
    (l : InventoryLevel) (q : ℤ)
    → record l { on_hand = l.on_hand +ℤ q }
      ≡ record l { on_hand = l.on_hand +ℤ q; in_transit = l.in_transit +ℤ zero_ℤ }
on_hand_only l q =
    ap (λ (x : ℤ). record l { on_hand = l.on_hand +ℤ q; in_transit = x }) (omega int_laws)

module _ (count_id user_id : ℕ) (header : StockCount) where
  count_row-touches :
      (item : StockCountItem) (q : ℤ)
      → eq_ℤ q zero_ℤ ≡ false
      → (w p b : ℕ)
      → touches w p b (count_row count_id user_id header item q)
        ≡ at_bin w p b (item_key header item)
  unfolding count_row item_key
  count_row-touches item q nz w p b = ground arith

  correct_level-Moves :
      (item : StockCountItem) (q : ℤ) (s s' : Stock)
      → correct_level count_id user_id header item q s ≡ ok s'
      → Moves (at (item_key header item) q) (at (item_key header item) zero_ℤ) s s'
  unfolding correct_level
  correct_level-Moves item q s s' h =
      let key = item_key header item in
      let ((level, t), lock, h₁) = >>=-eq-ok (lock_or_create_level key s) _ h in
      subst (Moves (at key q) (at key zero_ℤ) s) (ok_injective h₁) (
        row-Moves key level _ q zero_ℤ s t _ (lock_or_create_level-Locked key s level t lock)
          (λ k. level_at-post key k _ _ t) (on_hand_only level q))

  correct_level-IsLedgered :
      (item : StockCountItem) (q : ℤ) (s s' : Stock)
      → eq_ℤ q zero_ℤ ≡ false
      → correct_level count_id user_id header item q s ≡ ok s'
      → IsLedgered s
      → IsLedgered s'
  unfolding correct_level
  correct_level-IsLedgered item q s s' nz h l =
      let key = item_key header item in
      let ((level, t), got, h₁) = >>=-eq-ok (lock_or_create_level key s) _ h in
      let lock = lock_or_create_level-Locked key s level t got in
      subst IsLedgered (ok_injective h₁) (
        post-IsLedgered key level _ _ t lock.found (unfold count_row in refl)
          (count_row-touches item q nz) (Locked-IsLedgered key s level t lock l))

  reconcile_item-Moves :
      (item : StockCountItem) (s s' : Stock)
      → reconcile_item count_id user_id header item s ≡ ok s'
      → Moves (at (item_key header item) (variance item)) still s s'
  unfolding reconcile_item
  reconcile_item-Moves item s s' h = elim (Bool-cases (eq_ℤ (variance item) zero_ℤ)) [
    | inl nothing ↦ subst (Moves _ still s) (ok_injective (rw (nothing, reconcile_item) at h)) (
        Moves-as still still _ still s s
          (λ k.
            rw (no_variance (variance item) nothing) (at_zero (same_key (item_key header item) k)))
          (λ k. refl) (Moves-none s))
    | inr off ↦
        Moves-as _ _ _ still s s' (λ k. refl)
          (λ k. sym (at_zero (same_key (item_key header item) k)))
          (correct_level-Moves item (variance item) s s' (rw (off, reconcile_item) at h))
  ]

  reconcile_item-IsLedgered :
      (item : StockCountItem) (s s' : Stock)
      → reconcile_item count_id user_id header item s ≡ ok s'
      → IsLedgered s
      → IsLedgered s'
  unfolding reconcile_item
  reconcile_item-IsLedgered item s s' h l = elim (Bool-cases (eq_ℤ (variance item) zero_ℤ)) [
    | inl nothing ↦ subst IsLedgered (ok_injective (rw (nothing, reconcile_item) at h)) l
    | inr off ↦
        correct_level-IsLedgered item (variance item) s s' off (rw (off, reconcile_item) at h) l
  ]

-- The loop moves nothing in transit.
no_transit : {A : Type 0} (xs : List A) → sum (λ x. zero_ℤ) xs ≡ zero_ℤ
unfolding sum
no_transit [] = refl
no_transit (x ∷ xs) = grind (int_laws, no_transit xs)

pub save-eq-ok :
    (id : ℕ) (header : StockCount) (stock : Stock) (s s' : CountStore)
    → save id header stock s ≡ ok s'
    → (s' ≡ record s { stock = stock; counts = put id header s.counts }) × HasChecks stock
unfolding save
save-eq-ok id header stock s s' h =
    let (_, h₁) = raise_if-eq-ok (not (all_items header.items)) _ _ h in
    let (stock', flushed, h₂) = >>=-eq-ok (flush stock) _ h₁ in
    let (same, checks) = flush-eq-ok stock stock' flushed in
    (
      sym (ok_injective h₂)
          ∙ ap (λ (x : Stock). record s { stock = x; counts = put id header s.counts }) same,
      checks,
    )

require-eq-ok :
    (id w : ℕ) (s : CountStore) (header : StockCount)
    → require id w s ≡ ok header
    → lookup id s.counts ≡ some header
unfolding require
require-eq-ok id w s header h =
    found_of_ok (λ (c : StockCount). c.workspace_id == w) (lookup id s.counts) _ header h

-- What a reconciliation has found and done.
pub record Reconciled (id : ℕ) (user : User) (old header : StockCount) (s s' : CountStore)
    : Type 0 where
  pub found : lookup id s.counts ≡ some old
  pub manager : is_manager user.role ≡ true
  pub was_completed : is_completed old.status ≡ true
  pub none_pending : is_pending old.items ≡ false
  pub written : s'.counts ≡ put id header s.counts
  pub moves : Moves (corrections old) still s.stock s'.stock
  pub checks : HasChecks s'.stock

reconciled_loop :
    (id user_id : ℕ) (header : StockCount) (stock stock' : Stock)
    → for_each (reconcile_item id user_id header) (count_lines header) stock ≡ ok stock'
    → Moves (corrections header) still stock stock' × (IsLedgered stock → IsLedgered stock')
unfolding corrections
reconciled_loop id u header stock stock' h = (
  Moves-as _ _ _ still stock stock' (λ k. refl) (λ k. no_transit (count_lines header))
      (for_each-Moves (reconcile_item id u header) _ (λ item. still)
        (reconcile_item-Moves id u header) (count_lines header) stock stock' h),
  for_each_inv IsLedgered (reconcile_item id u header) (reconcile_item-IsLedgered id u header)
      (count_lines header) stock stock' h,
)

module _ (workspace_id : ℕ) (user : User) (count_id now : ℕ) (s s' : CountStore) where
  reconcile_count-eq-ok :
      reconcile_count workspace_id user count_id now s ≡ ok s'
      → ((header : StockCount) × Reconciled count_id user header
            (record header { status = reconciled; reconciled_at = some now })
            s
            s')
        × (IsLedgered s.stock → IsLedgered s'.stock)
  unfolding reconcile_count
  reconcile_count-eq-ok h =
      let (m, h₁) = raise_if-eq-ok (not (is_manager user.role)) _ _ h in
      let (header, found, h₂) = >>=-eq-ok (require count_id workspace_id s) _ h₁ in
      let (c, h₃) = raise_if-eq-ok (not (is_completed header.status)) _ _ h₂ in
      let (p, h₄) = raise_if-eq-ok (is_pending header.items) _ _ h₃ in
      let (stock, looped, h₅) =
        >>=-eq-ok (for_each (reconcile_item count_id user.id header) (count_lines header) s.stock) _
          h₄ in
      let (e, checks) = save-eq-ok count_id _ stock s s' h₅ in
      let (moves, ledger) = reconciled_loop count_id user.id header s.stock stock looped in
      (
        (
          header,
          subst
              (Reconciled count_id user header
                (record header { status = reconciled; reconciled_at = some now }) s)
              (sym e)
              (record {
                found = require-eq-ok count_id workspace_id s header found;
                manager = ground (arith, m);
                was_completed = ground (arith, c);
                none_pending = p;
                written = refl;
                moves = moves;
                checks = checks;
              }),
        ),
        λ l. subst (λ (x : CountStore). IsLedgered x.stock) (sym e) (ledger l),
      )

  -- A reconciliation that returns was made by a manager on a completed count with no item that
  -- waits for approval, and writes the count back as reconciled; the stock on hand of every row has
  -- moved by what the items at that row were off, together; reserved, damaged and in transit stay,
  -- and the levels pass their constraints.
  pub reconcile_count-Reconciled :
      reconcile_count workspace_id user count_id now s ≡ ok s'
      → (header : StockCount) × Reconciled count_id user header
          (record header { status = reconciled; reconciled_at = some now })
          s
          s'
  reconcile_count-Reconciled h = (reconcile_count-eq-ok h).0

  -- Where the ledger accounts for the stock on hand of every bin, it does so after a reconciliation.
  pub reconcile_count-IsLedgered :
      reconcile_count workspace_id user count_id now s ≡ ok s'
      → IsLedgered s.stock
      → IsLedgered s'.stock
  reconcile_count-IsLedgered h = (reconcile_count-eq-ok h).1
