-- ===== src/Receivable/Paid.antt =====
-- What a payment that begins to count does to what the invoices have open.
use rezorpay_pro.Common.{
  ℕ, ℤ, zero_ℤ, true, ◌&&◌, ◌≡◌, ◌≤ℤ◌, ◌+ℤ◌, sym, ap, ◌∙◌, subst, lookup, nat_eq, ◌==◌, inl, inr,
  Bool-cases, Option-cases, arith, int_laws,
}
use rezorpay_pro.Receivable.{
  Payment, ReceivableStore, balance_due, raw_balance, amount_paid, counted_for, is_success,
}
use rezorpay_pro.Receivable.Restated.{
  due_at, due_by, due_by-terms, raw_at, raw_by, raw_by-terms, terms,
}
use rezorpay_pro.Receivable.Balance.{
  balance_due-drop, raw_balance-drop, balance_due-nonneg, balance_due-raw,
}

-- No invoice is paid more than it comes to after its credit and debit notes.
abbrev pub IsCovered : ReceivableStore → Type 0
IsCovered s = (j : ℕ) → zero_ℤ ≤ℤ raw_at j s

-- The payment `p`, which fits what its invoice has open if it counts, is all that is paid in between.
pub record Paid (p : Payment) (s s' : ReceivableStore) : Type 0 where
  pub nonneg : zero_ℤ ≤ℤ p.amount
  pub fits : (is_success p.status ≡ true) → p.amount ≤ℤ due_at p.invoice_id s
  pub paid : (j : ℕ) → amount_paid j s'.payments ≡ amount_paid j s.payments +ℤ counted_for j p
  pub invoices : (j : ℕ) → terms (lookup j s'.invoices) ≡ terms (lookup j s.invoices)

due_at-nonneg : (j : ℕ) (s : ReceivableStore) → zero_ℤ ≤ℤ due_at j s
due_at-nonneg j s = elim (Option-cases (lookup j s.invoices)) [
  | inl absent ↦ rw absent (omega arith)
  | inr (invoice, e) ↦ rw e (balance_due-nonneg j invoice s.payments)
]

nothing_open : (a b : ℤ) → zero_ℤ ≤ℤ a → a ≤ℤ b → b ≡ zero_ℤ → zero_ℤ +ℤ a ≡ zero_ℤ
nothing_open a b nn le e = grind int_laws

what_is_left : (a c d b : ℤ) → a +ℤ c ≡ d → zero_ℤ ≤ℤ d → c ≤ℤ b → b ≡ d → zero_ℤ ≤ℤ a
what_is_left a c d b e nn le same = grind int_laws

module _ (p : Payment) (s s' : ReceivableStore) (r : Paid p s s') (j : ℕ) where
  counted_nonneg : zero_ℤ ≤ℤ counted_for j p
  counted_nonneg = elim (Bool-cases ((p.invoice_id == j) && is_success p.status)) [
    | inr other ↦ rw other (omega arith)
    | inl counts ↦ rw counts r.nonneg
  ]

  -- A payment counts at most what its own invoice has open, and nothing for another one.
  counted_le : counted_for j p ≤ℤ due_at j s
  counted_le = elim (Bool-cases ((p.invoice_id == j) && is_success p.status)) [
    | inr other ↦ rw other (due_at-nonneg j s)
    | inl counts ↦
        let here : p.invoice_id ≡ j = ground arith in
        let succeeds : is_success p.status ≡ true = ground arith in
        rw counts (subst (λ i. p.amount ≤ℤ due_at i s) here (r.fits succeeds))
  ]

  due_at-now : due_at j s' ≡ due_by j s'.payments (lookup j s.invoices)
  due_at-now =
      sym (due_by-terms j s'.payments (lookup j s'.invoices))
      ∙ ap (due_by j s'.payments) (r.invoices j)
      ∙ due_by-terms j s'.payments (lookup j s.invoices)

  raw_at-now : raw_at j s' ≡ raw_by j s'.payments (lookup j s.invoices)
  raw_at-now =
      sym (raw_by-terms j s'.payments (lookup j s'.invoices))
      ∙ ap (raw_by j s'.payments) (r.invoices j)
      ∙ raw_by-terms j s'.payments (lookup j s.invoices)

  pub due_at-paid : due_at j s' +ℤ counted_for j p ≡ due_at j s
  due_at-paid = elim (Option-cases (lookup j s.invoices)) [
    | inl absent ↦
        rw (due_at-now, absent)
          (nothing_open (counted_for j p) (due_at j s) counted_nonneg counted_le
            (ap (due_by j s.payments) absent))
    | inr (inv, e) ↦
        let le : counted_for j p ≤ℤ balance_due j inv s.payments = rw e at counted_le in
        rw (due_at-now, e)
          (balance_due-drop j inv s.payments s'.payments (counted_for j p) (r.paid j) counted_nonneg
            le)
  ]

  pub covered_step : zero_ℤ ≤ℤ raw_at j s → zero_ℤ ≤ℤ raw_at j s'
  covered_step h = elim (Option-cases (lookup j s.invoices)) [
    | inl absent ↦ rw (raw_at-now, absent) (omega arith)
    | inr (inv, e) ↦
        let open_nn : zero_ℤ ≤ℤ raw_balance j inv s.payments = rw e at h in
        let le : counted_for j p ≤ℤ balance_due j inv s.payments = rw e at counted_le in
        rw (raw_at-now, e)
          (what_is_left (raw_balance j inv s'.payments) (counted_for j p)
            (raw_balance j inv s.payments) (balance_due j inv s.payments)
            (raw_balance-drop j inv s.payments s'.payments (counted_for j p) (r.paid j)) open_nn le
            (balance_due-raw j inv s.payments open_nn))
  ]
