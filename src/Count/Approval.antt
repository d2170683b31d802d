-- ===== src/Count/Approval.antt =====
-- Which items of a count wait for an approval (services/stock_count_service.py), and that an
-- approval lets the count be reconciled.
use rezorpay_pro.Common.{
  abs_ℤ, ℕ, ℤ, zero_ℤ, true, false, not, some, [], ◌∷◌, ◌≡◌, refl, ◌≤ℤ◌, ◌-ℤ◌, ltb_ℤ, map, Table,
  nat_eq, lookup, lookup-put_self, ok, >>=-eq-ok, raise_if-eq-ok, arith, ap, ◌∙◌,
}
use rezorpay_pro.Stock.Ledger.{User, is_manager}
use rezorpay_pro.Count.{StockCount, StockCountItem, CountStore, needs_approval, times, require}
use rezorpay_pro.Count.Steps.{approve_count, approved_item, is_pending, is_completed}
use rezorpay_pro.Count.Reconcile.{save-eq-ok}

-- For an expected quantity that is not negative, the special cases agree with the one comparison: an
-- item needs an approval exactly when a hundred times its difference exceeds twice the expected
-- quantity.
pub needs_approval-eq :
    (expected counted : ℤ)
    → zero_ℤ ≤ℤ expected
    → needs_approval expected (some counted)
      ≡ ltb_ℤ (times expected 2) (times (abs_ℤ (counted -ℤ expected)) 100)
unfolding needs_approval ◌-ℤ◌
needs_approval-eq expected counted nn = ground arith

not_pending : (items : Table ℕ StockCountItem) → is_pending (map approved_item items) ≡ false
unfolding is_pending
not_pending [] = refl
not_pending ((id, item) ∷ items) = ground (arith, not_pending items)

-- After an approval that returns, no item of the count waits for one.
approve_count-ready :
    (workspace_id : ℕ) (user : User) (count_id now : ℕ) (s s' : CountStore)
    → approve_count workspace_id user count_id now s ≡ ok s'
    → (header : StockCount) × (lookup count_id s'.counts ≡ some header)
      × (is_completed header.status ≡ true)
      × (is_pending header.items ≡ false)
unfolding approve_count
approve_count-ready w user id now s s' h =
    let (m, h₁) = raise_if-eq-ok (not (is_manager user.role)) _ _ h in
    let (header, found, h₂) = >>=-eq-ok (require id w s) _ h₁ in
    let (c, h₃) = raise_if-eq-ok (not (is_completed header.status)) _ _ h₂ in
    let (e, checks) = save-eq-ok id _ s.stock s s' h₃ in
    (
      _,
      ap (λ (x : CountStore). lookup id x.counts) e ∙ lookup-put_self id _ s.counts,
      ground (arith, c),
      not_pending header.items,
    )
