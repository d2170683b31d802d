-- ===== src/Stock/Issue.antt =====
-- What `post_issue` of services/inventory_ledger.py does to the stock.
use Prim.Native.String.{String}
use rezorpay_pro.Common.{
  ℕ, ℤ, zero_ℤ, Bool, true, false, Option, some, ◌≡◌, refl, leb_ℤ, ltb_ℤ, if◌then◌else◌, Result, ok,
  http, validation_error, raise_if-eq-ok, >>=-eq-ok, ok_injective, arith, int_laws, lookup, subst,
}
use rezorpay_pro.Stock.{Stock, LevelKey, InventoryLevel, level_eq, available, IsLedgered}
use rezorpay_pro.Stock.Locate.{lock_or_create_level, Locked, lock_or_create_level-Locked}
use rezorpay_pro.Stock.Ledger.{post_issue, issue_back, issue_out}
use rezorpay_pro.Stock.Balance.{post-IsLedgered, Locked-IsLedgered}

-- The facts that hold once the lock is taken: the quantity is positive and the branch returned.
pub record Issued (key : LevelKey) (qty : ℤ) (s s' : Stock)
    (branch : InventoryLevel → Stock → Result Stock) : Type 0 where
  pub positive : leb_ℤ qty zero_ℤ ≡ false
  pub level : InventoryLevel
  pub stock : Stock
  pub locked : Locked key s level stock
  pub returned : branch level stock ≡ ok s'

abbrev branch_of :
    LevelKey
    → ℤ
    → ℕ
    → ℕ
    → Bool
    → Option String
    → Option String
    → InventoryLevel
    → Stock
    → Result Stock
branch_of key qty u r reverse ty reason level s =
    if reverse
    then issue_back key qty u r ty reason level s
    else issue_out key qty u r ty reason level s

module _ (key : LevelKey) (qty : ℤ) (user_id reference_id : ℕ)
    (reference_type reason : Option String) (s s' : Stock) where
  pub post_issue-eq-ok :
      (reverse : Bool)
      → post_issue key qty user_id reference_id reverse reference_type reason s ≡ ok s'
      → Issued key qty s s' (branch_of key qty user_id reference_id reverse reference_type reason)
  unfolding post_issue
  post_issue-eq-ok reverse h =
      let (p, h₁) = raise_if-eq-ok (leb_ℤ qty zero_ℤ) (http 400 validation_error) _ h in
      let ((level, t), lock, h₂) = >>=-eq-ok (lock_or_create_level key s) _ h₁ in
      record {
        positive = p;
        level = level;
        stock = t;
        locked = lock_or_create_level-Locked key s level t lock;
        returned = h₂;
      }

  -- The two writes, as they stand behind the lock.
  issue_out-eq-ok :
      (level : InventoryLevel) (t : Stock)
      → issue_out key qty user_id reference_id reference_type reason level t ≡ ok s'
      → ltb_ℤ (available level) qty ≡ false
  unfolding issue_out
  issue_out-eq-ok level t h = (raise_if-eq-ok (ltb_ℤ (available level) qty) _ _ h).0

  issue_out-IsLedgered :
      (level : InventoryLevel) (t : Stock)
      → lookup key t.levels ≡ some level
      → issue_out key qty user_id reference_id reference_type reason level t ≡ ok s'
      → IsLedgered t
      → IsLedgered s'
  unfolding issue_out
  issue_out-IsLedgered level t found h l =
      subst IsLedgered (ok_injective (raise_if-eq-ok (ltb_ℤ (available level) qty) _ _ h).1)
        (post-IsLedgered key level _ _ t found (grind int_laws) (λ w p b. ground arith) l)

  issue_back-IsLedgered :
      (level : InventoryLevel) (t : Stock)
      → lookup key t.levels ≡ some level
      → issue_back key qty user_id reference_id reference_type reason level t ≡ ok s'
      → IsLedgered t
      → IsLedgered s'
  unfolding issue_back
  issue_back-IsLedgered level t found h l =
      subst IsLedgered (ok_injective h)
        (post-IsLedgered key level _ _ t found refl (λ w p b. refl) l)

  -- A successful issue or return of goods keeps the ledger in step with the stock on hand, whether
  -- it found the row or created it.
  pub post_issue-IsLedgered :
      (reverse : Bool)
      → post_issue key qty user_id reference_id reverse reference_type reason s ≡ ok s'
      → IsLedgered s
      → IsLedgered s'
  post_issue-IsLedgered true h l =
      let i = post_issue-eq-ok true h in
      issue_back-IsLedgered i.level i.stock i.locked.found i.returned
        (Locked-IsLedgered key s i.level i.stock i.locked l)
  post_issue-IsLedgered false h l =
      let i = post_issue-eq-ok false h in
      issue_out-IsLedgered i.level i.stock i.locked.found i.returned
        (Locked-IsLedgered key s i.level i.stock i.locked l)
