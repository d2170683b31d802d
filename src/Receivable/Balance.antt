-- ===== src/Receivable/Balance.antt =====
-- Lemmas on what is paid of an invoice and what it has open (backend/app/models/invoice.py).
use rezorpay_pro.Common.{
  ℕ, ℤ, zero_ℤ, none, some, Table, ◌≡◌, ◌+ℤ◌, ◌≤ℤ◌, ltb_ℤ, if◌then◌else◌, lookup, put, sum_by-put,
  sum_by-put_new, int_laws, nat_eq, arith,
}
use rezorpay_pro.Receivable.{Invoice, Payment, counted_for, amount_paid, raw_balance, balance_due}

pub amount_paid-insert :
    (i id : ℕ) (p : Payment) (payments : Table ℕ Payment)
    → lookup id payments ≡ none
    → amount_paid i (put id p payments) ≡ amount_paid i payments +ℤ counted_for i p
unfolding amount_paid
amount_paid-insert i id p payments h = sum_by-put_new (λ k q. counted_for i q) id p payments h

pub amount_paid-replace :
    (i id : ℕ) (p old : Payment) (payments : Table ℕ Payment)
    → lookup id payments ≡ some old
    → amount_paid i (put id p payments) +ℤ counted_for i old
      ≡ amount_paid i payments +ℤ counted_for i p
unfolding amount_paid
amount_paid-replace i id p old payments h = sum_by-put (λ k q. counted_for i q) id p old payments h

pub balance_due-nonneg :
    (i : ℕ) (inv : Invoice) (t : Table ℕ Payment) → zero_ℤ ≤ℤ balance_due i inv t
unfolding balance_due
balance_due-nonneg i inv t = grind arith

-- Nothing is cut off where it is not negative.
pub balance_due-raw :
    (i : ℕ) (inv : Invoice) (t : Table ℕ Payment)
    → zero_ℤ ≤ℤ raw_balance i inv t
    → balance_due i inv t ≡ raw_balance i inv t
unfolding balance_due
balance_due-raw i inv t h = ground arith

pub raw_balance-drop :
    (i : ℕ) (inv : Invoice) (t u : Table ℕ Payment) (d : ℤ)
    → amount_paid i u ≡ amount_paid i t +ℤ d
    → raw_balance i inv u +ℤ d ≡ raw_balance i inv t
unfolding raw_balance
raw_balance-drop i inv t u d e = rw e (grind int_laws)

cut_drop :
    (r s d : ℤ)
    → s +ℤ d ≡ r
    → zero_ℤ ≤ℤ d
    → d ≤ℤ (if ltb_ℤ r zero_ℤ then zero_ℤ else r)
    → (if ltb_ℤ s zero_ℤ then zero_ℤ else s) +ℤ d ≡ (if ltb_ℤ r zero_ℤ then zero_ℤ else r)
cut_drop r s d e nn fits = grind int_laws

-- Two tables that differ in what is paid by `d`: so much, where it fits, do their balances.
pub balance_due-drop :
    (i : ℕ) (inv : Invoice) (t u : Table ℕ Payment) (d : ℤ)
    → amount_paid i u ≡ amount_paid i t +ℤ d
    → zero_ℤ ≤ℤ d
    → d ≤ℤ balance_due i inv t
    → balance_due i inv u +ℤ d ≡ balance_due i inv t
unfolding balance_due
balance_due-drop i inv t u d e nn fits =
    cut_drop (raw_balance i inv t) (raw_balance i inv u) d (raw_balance-drop i inv t u d e) nn fits

pub balance_due-same :
    (i : ℕ) (inv : Invoice) (t u : Table ℕ Payment)
    → amount_paid i u ≡ amount_paid i t
    → balance_due i inv u ≡ balance_due i inv t
unfolding balance_due raw_balance
balance_due-same i inv t u e = rw e
