-- ===== src/Transfer/Totals.antt =====
-- The steps of a transfer (services/stock_transfer_service.py) as a whole: what a successful call
-- has found and how far it has moved the stock.
use rezorpay_pro.Common.{
  ℕ, ℤ, zero_ℤ, Bool, true, false, not, Option, some, List, [], ◌∷◌, ◌≡◌, refl, ◌+ℤ◌, ◌-ℤ◌,
  if◌then◌else◌, nat_eq, lookup, put, ok, ◌==◌, >>=-eq-ok, raise_if-eq-ok, ok_injective, int_laws,
  sum, sum-sorted, sym, ap, ◌∙◌,
}
use rezorpay_pro.Stock.{Stock, LevelKey}
use rezorpay_pro.Stock.Locate.{found_of_ok}
use rezorpay_pro.Stock.Checks.{flush, flush-eq-ok, HasChecks}
use rezorpay_pro.Transfer.{
  StockTransfer, StockTransferItem, TransferStore, source_key, destination_key, require, save,
  all_items,
}
use rezorpay_pro.Transfer.Steps.{lines, received_of}
use rezorpay_pro.Stock.Moves.{at}
use rezorpay_pro.Transfer.Effect.{leaving, arriving}

pub save-eq-ok :
    (id : ℕ) (header : StockTransfer) (stock : Stock) (s s' : TransferStore)
    → save id header stock s ≡ ok s'
    → (s' ≡ record s { stock = stock; transfers = put id header s.transfers }) × HasChecks stock
unfolding save
save-eq-ok id header stock s s' h =
    let (_, h₁) = raise_if-eq-ok (not (all_items header.items)) _ _ h in
    let (stock', flushed, h₂) = >>=-eq-ok (flush stock) _ h₁ in
    let (same, checks) = flush-eq-ok stock stock' flushed in
    (
      sym (ok_injective h₂)
          ∙ ap (λ (x : Stock). record s { stock = x; transfers = put id header s.transfers }) same,
      checks,
    )

pub require-eq-ok :
    (id w : ℕ) (s : TransferStore) (header : StockTransfer)
    → require id w s ≡ ok header
    → lookup id s.transfers ≡ some header
unfolding require
require-eq-ok id w s header h =
    found_of_ok (λ (t : StockTransfer). t.workspace_id == w) (lookup id s.transfers) _ header h

-- Sums over the lines in the order of the loop.
sum_of_negated :
    {A : Type 0} (f g : A → ℤ) (xs : List A)
    → ((x : A) → f x ≡ zero_ℤ -ℤ g x)
    → sum f xs ≡ zero_ℤ -ℤ sum g xs
unfolding sum
sum_of_negated f g [] e = omega int_laws
sum_of_negated f g (x ∷ xs) e = grind (int_laws, e x, sum_of_negated f g xs e)

sum_of_padded :
    {A : Type 0} (f g : A → ℤ) (xs : List A) → ((x : A) → f x ≡ g x) → sum f xs ≡ sum g xs
unfolding sum
sum_of_padded f g [] e = refl
sum_of_padded f g (x ∷ xs) e = grind (int_laws, e x, sum_of_padded f g xs e)

pub at_negated :
    (c : Bool) (q : ℤ) → (if c then zero_ℤ -ℤ q else zero_ℤ) ≡ zero_ℤ -ℤ (if c then q else zero_ℤ)
at_negated true q = refl
at_negated false q = omega int_laws

pub at_alone :
    (c d : Bool) (q : ℤ)
    → (if c then q else zero_ℤ) +ℤ (if d then zero_ℤ else zero_ℤ) ≡ (if c then q else zero_ℤ)
at_alone c true q = grind int_laws
at_alone c false q = grind int_laws

pub at_second :
    (c d : Bool) (q : ℤ)
    → (if c then zero_ℤ else zero_ℤ) +ℤ (if d then zero_ℤ -ℤ q else zero_ℤ)
      ≡ zero_ℤ -ℤ (if d then q else zero_ℤ)
at_second true true q = grind int_laws
at_second true false q = grind int_laws
at_second false true q = grind int_laws
at_second false false q = grind int_laws

module _ (header : StockTransfer) (k : LevelKey) where
  pub leaves :
      (f : StockTransferItem → ℤ)
      → ((item : StockTransferItem) → f item ≡ at (source_key header item) item.quantity k)
      → sum f (lines header) ≡ leaving header k
  unfolding lines leaving
  leaves f e =
      sum_of_padded f _ _ e
      ∙ sum-sorted _ (λ (line : StockTransferItem). line.created_at) header.items

  pub leaves_negated :
      (f : StockTransferItem → ℤ)
      → ((item : StockTransferItem)
          → f item ≡ zero_ℤ -ℤ at (source_key header item) item.quantity k)
      → sum f (lines header) ≡ zero_ℤ -ℤ leaving header k
  leaves_negated f e =
      sum_of_negated f (λ item. at (source_key header item) item.quantity k) (lines header) e
      ∙ ap (λ x. zero_ℤ -ℤ x) (leaves _ (λ item. refl))

  pub arrives :
      (m : ℕ → Option ℤ) (f : StockTransferItem → ℤ)
      → ((item : StockTransferItem)
          → f item ≡ at (destination_key header item) (received_of m item) k)
      → sum f (lines header) ≡ arriving header m k
  unfolding lines arriving
  arrives m f e =
      sum_of_padded f _ _ e
      ∙ sum-sorted _ (λ (line : StockTransferItem). line.created_at) header.items
