-- ===== src/Payables/Served.antt =====
-- Every call that pays suppliers, or takes a payment back, keeps the stored amounts.
use rezorpay_pro.Common.{
  ℕ, ℤ, zero_ℤ, true, false, none, some, List, ◌≡◌, ◌+ℤ◌, ◌-ℤ◌, refl, ap, ◌∙◌, lookup, put, nat_eq,
  ◌==◌, ltb_ℤ, eq_ℤ, max_ℤ, inl, inr, Bool-cases, int_laws,
}
use rezorpay_pro.Receivable.{PaymentStatus, is_success, IdempotencyKey}
use rezorpay_pro.Payables.{
  SupplierInvoice, SupplierPayment, PayableStore, is_approved, settle_invoice, reverse_settlement,
  settle, emit_event,
}
use rezorpay_pro.Payables.Reverse.{unsettle}
use rezorpay_pro.Payables.Book.{
  Booked, only_at, paid_share, paid_for, paid_for-insert, paid_for-replace, share_success,
  share_none, stored_put,
}

pub settle_invoice_paid :
    (now : ℕ) (invoice : SupplierInvoice) (amount : ℤ)
    → (settle_invoice now invoice amount).amount_paid ≡ invoice.amount_paid +ℤ amount
unfolding settle_invoice
settle_invoice_paid now invoice amount =
    elim (Bool-cases (eq_ℤ (max_ℤ zero_ℤ (invoice.balance_due -ℤ amount)) zero_ℤ)) [
      | inl full ↦ rw full refl
      | inr part ↦ elim (Bool-cases (is_approved invoice.status)) [
        | inl first ↦ rw (part, first) refl
        | inr later ↦ rw (part, later) refl
      ]
    ]

minus : (a b : ℤ) → a -ℤ b ≡ a +ℤ (zero_ℤ -ℤ b)
minus a b = grind int_laws

pub reverse_settlement_paid :
    (invoice : SupplierInvoice) (amount : ℤ)
    → (reverse_settlement invoice amount).amount_paid ≡ invoice.amount_paid +ℤ (zero_ℤ -ℤ amount)
unfolding reverse_settlement
reverse_settlement_paid invoice amount =
    elim (Bool-cases (ltb_ℤ zero_ℤ (invoice.balance_due +ℤ amount))) [
      | inl owing ↦ rw owing (minus invoice.amount_paid amount)
      | inr none_owing ↦ rw none_owing (minus invoice.amount_paid amount)
    ]

nothing_and : (a b d : ℤ) → b ≡ zero_ℤ → a ≡ d → a ≡ b +ℤ d
nothing_and a b d h k = grind int_laws

-- A payment of an invoice that began to count, and the invoice settled by its amount.
pub settle-Booked :
    (now workspace_id i id user_id : ℕ) (invoice : SupplierInvoice) (p q : SupplierPayment)
    (s : PayableStore)
    → lookup i s.invoices ≡ some invoice
    → lookup id s.payments ≡ some p
    → is_success p.status ≡ false
    → is_success q.status ≡ true
    → q.supplier_invoice_id ≡ i
    → Booked (only_at i q.amount) s (
        settle now workspace_id i invoice q.amount user_id
          (record s { payments = put id q s.payments }))
unfolding settle emit_event
settle-Booked now workspace_id i id user_id invoice p q s found there before after linked = record {
  paid = λ j. paid_for-replace j id q p s.payments (only_at i q.amount j) there (
      nothing_and (paid_share j q) (paid_share j p) (only_at i q.amount j) (share_none p j before)
        (share_success i q j linked after));
  stored =
      stored_put i q.amount invoice (settle_invoice now invoice q.amount) s.invoices found
        (settle_invoice_paid now invoice q.amount);
}

pub settle_new-Booked :
    (now workspace_id i id user_id : ℕ) (invoice : SupplierInvoice) (q : SupplierPayment)
    (ks : List IdempotencyKey) (s : PayableStore)
    → lookup i s.invoices ≡ some invoice
    → lookup id s.payments ≡ none
    → is_success q.status ≡ true
    → q.supplier_invoice_id ≡ i
    → Booked (only_at i q.amount) s (
        settle now workspace_id i invoice q.amount user_id
          (record s { payments = put id q s.payments; idempotency_keys = ks }))
unfolding settle emit_event
settle_new-Booked now workspace_id i id user_id invoice q ks s found absent after linked = record {
  paid = λ j.
      paid_for-insert j id q s.payments absent
      ∙ ap (λ x. paid_for j s.payments +ℤ x) (share_success i q j linked after);
  stored =
      stored_put i q.amount invoice (settle_invoice now invoice q.amount) s.invoices found
        (settle_invoice_paid now invoice q.amount);
}

taken_back : (a b d e : ℤ) → a ≡ zero_ℤ → b ≡ d → e ≡ zero_ℤ -ℤ d → a ≡ b +ℤ e
taken_back a b d e h k m = grind int_laws

negated_at : (i j : ℕ) (d : ℤ) → only_at i (zero_ℤ -ℤ d) j ≡ zero_ℤ -ℤ only_at i d j
negated_at i j d = elim (Bool-cases (i == j)) [
  | inl here ↦ rw here refl
  | inr other ↦ rw other (grind int_laws)
]

pub unsettle-Booked :
    (workspace_id i id user_id : ℕ) (invoice : SupplierInvoice) (p : SupplierPayment)
    (s : PayableStore)
    → lookup i s.invoices ≡ some invoice
    → lookup id s.payments ≡ some p
    → is_success p.status ≡ true
    → p.supplier_invoice_id ≡ i
    → Booked (only_at i (zero_ℤ -ℤ p.amount)) s (unsettle workspace_id i invoice id p user_id s)
unfolding unsettle emit_event
unsettle-Booked workspace_id i id user_id invoice p s found there before linked =
    let q : SupplierPayment = record p { status = PaymentStatus.failed } in
    record {
      paid = λ j. paid_for-replace j id q p s.payments (only_at i (zero_ℤ -ℤ p.amount) j) there (
          taken_back (paid_share j q) (paid_share j p) (only_at i p.amount j)
            (only_at i (zero_ℤ -ℤ p.amount) j) (share_none q j refl)
            (share_success i p j linked before) (negated_at i j p.amount));
      stored =
          stored_put i (zero_ℤ -ℤ p.amount) invoice (reverse_settlement invoice p.amount) s.invoices
            found (reverse_settlement_paid invoice p.amount);
    }
