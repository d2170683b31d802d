-- ===== src/Payables/Book.antt =====
-- The stored `amount_paid` of the supplier invoices against their payments.
use rezorpay_pro.Common.{
  ℕ, ℤ, zero_ℤ, true, false, ◌&&◌, Option, none, some, Table, ◌≡◌, ◌+ℤ◌, refl, ap, lookup, put,
  lookup-put, lookup-put_ne, sum_by, sum_by-put, sum_by-put_new, nat_eq, ◌==◌, ==_iff,
  if◌then◌else◌, inl, inr, Bool-cases, int_laws, arith, ⊤,
}
use rezorpay_pro.Receivable.{is_success}
use rezorpay_pro.Payables.{SupplierInvoice, SupplierPayment, PayableStore}

-- What a payment is worth to an invoice, and what all are.
abbrev pub paid_share : ℕ → SupplierPayment → ℤ
paid_share j p = if (p.supplier_invoice_id == j) && is_success p.status then p.amount else zero_ℤ

unfoldable pub paid_for : ℕ → Table ℕ SupplierPayment → ℤ
paid_for j payments = sum_by (λ id p. paid_share j p) payments

abbrev pub column : Option SupplierInvoice → Option ℤ
column none = none
column (some invoice) = some invoice.amount_paid

abbrev pub Agrees : Option ℤ → ℤ → Type 0
Agrees none a = ⊤
Agrees (some c) a = c ≡ a

-- The stored amount of every invoice is the sum of its successful payments.
abbrev pub IsBooked : PayableStore → Type 0
IsBooked s = (j : ℕ) → Agrees (column (lookup j s.invoices)) (paid_for j s.payments)

abbrev pub shift : ℤ → Option ℤ → Option ℤ
shift d none = none
shift d (some c) = some (c +ℤ d)

-- Payments and stored amounts have moved by the same.
pub record Booked (delta : ℕ → ℤ) (s s' : PayableStore) : Type 0 where
  pub paid : (j : ℕ) → paid_for j s'.payments ≡ paid_for j s.payments +ℤ delta j
  pub stored :
      (j : ℕ) → column (lookup j s'.invoices) ≡ shift (delta j) (column (lookup j s.invoices))

pub Booked-IsBooked :
    (delta : ℕ → ℤ) (s s' : PayableStore) → Booked delta s s' → IsBooked s → IsBooked s'
Booked-IsBooked delta s s' b h j =
    rw (b.stored j, b.paid j)
      (agrees_shift (column (lookup j s.invoices)) (paid_for j s.payments) (delta j) (h j))
  where
    agrees_shift : (o : Option ℤ) (a d : ℤ) → Agrees o a → Agrees (shift d o) (a +ℤ d)
    agrees_shift none a d h = tt
    agrees_shift (some c) a d h = ap (λ x. x +ℤ d) h

pub shift_zero : (o : Option ℤ) → o ≡ shift zero_ℤ o
shift_zero none = refl
shift_zero (some c) = ap some (grind int_laws)

-- An amount at one invoice.
abbrev pub only_at : ℕ → ℤ → ℕ → ℤ
only_at i d j = if i == j then d else zero_ℤ

pub stored_put :
    (i : ℕ) (d : ℤ) (invoice row : SupplierInvoice) (t : Table ℕ SupplierInvoice)
    → lookup i t ≡ some invoice
    → row.amount_paid ≡ invoice.amount_paid +ℤ d
    → (j : ℕ) → column (lookup j (put i row t)) ≡ shift (only_at i d j) (column (lookup j t))
stored_put i d invoice row t found e j = elim (Bool-cases (i == j)) [
  | inr other ↦ rw (other, lookup-put_ne i j row t other) (shift_zero (column (lookup j t)))
  | inl here ↦ rw (here, lookup-put, here, ← (==_iff i j).0 here, found) (ap some e)
]

pub share_success :
    (i : ℕ) (p : SupplierPayment) (j : ℕ)
    → p.supplier_invoice_id ≡ i
    → is_success p.status ≡ true
    → paid_share j p ≡ only_at i p.amount j
share_success i p j e h = ground arith

pub share_none :
    (p : SupplierPayment) (j : ℕ) → is_success p.status ≡ false → paid_share j p ≡ zero_ℤ
share_none p j h = ground arith

pub paid_for-insert :
    (j id : ℕ) (p : SupplierPayment) (t : Table ℕ SupplierPayment)
    → lookup id t ≡ none
    → paid_for j (put id p t) ≡ paid_for j t +ℤ paid_share j p
unfolding paid_for
paid_for-insert j id p t h = sum_by-put_new (λ k q. paid_share j q) id p t h

shares : (a b c d e : ℤ) → a +ℤ c ≡ b +ℤ d → d ≡ c +ℤ e → a ≡ b +ℤ e
shares a b c d e h k = grind int_laws

-- A payment written anew, whose worth changes by `e`.
pub paid_for-replace :
    (j id : ℕ) (q p : SupplierPayment) (t : Table ℕ SupplierPayment) (e : ℤ)
    → lookup id t ≡ some p
    → paid_share j q ≡ paid_share j p +ℤ e
    → paid_for j (put id q t) ≡ paid_for j t +ℤ e
unfolding paid_for
paid_for-replace j id q p t e h k =
    shares (paid_for j (put id q t)) (paid_for j t) (paid_share j p) (paid_share j q) e
      (sum_by-put (λ i r. paid_share j r) id q p t h) k

-- A payment written anew that is worth nothing before and after.
pub unpaid-Booked :
    (id : ℕ) (q p : SupplierPayment) (s : PayableStore)
    → lookup id s.payments ≡ some p
    → is_success p.status ≡ false
    → is_success q.status ≡ false
    → Booked (λ j. zero_ℤ) s (record s { payments = put id q s.payments })
unpaid-Booked id q p s found before after = record {
  paid = λ j.
      paid_for-replace j id q p s.payments zero_ℤ found
        (nothing (paid_share j q) (paid_share j p) (share_none q j after) (share_none p j before));
  stored = λ j. shift_zero (column (lookup j s.invoices));
}
  where
    nothing : (a b : ℤ) → a ≡ zero_ℤ → b ≡ zero_ℤ → a ≡ b +ℤ zero_ℤ
    nothing a b h k = grind int_laws
