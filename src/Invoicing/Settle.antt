-- ===== src/Invoicing/Settle.antt =====
-- The status of an invoice (services/invoice_service.py) against what it has open.
use rezorpay_pro.Common.{
  ℕ, ℤ, zero_ℤ, Bool, true, false, ◌||◌, some, Table, ◌≡◌, ◌↔◌, ◌≤ℤ◌, ◌+ℤ◌, ◌-ℤ◌, ltb_ℤ, eq_ℤ,
  max_ℤ, refl, lookup, nat_eq, if◌then◌else◌, inl, inr, Bool-cases, int_laws, arith,
}
use rezorpay_pro.Receivable.{
  Invoice, sent, partially_paid, paid, overdue, is_cancelled, is_draft, same_status, Payment,
  ReceivableStore, amount_paid, raw_balance, balance_due,
}
use rezorpay_pro.Receivable.Restated.{Restated, as_it_was, and_then, Restated-refl, terms-put}
use rezorpay_pro.Credit.{should_mark_overdue, utc_today}
use rezorpay_pro.Invoicing.{
  calculate_credit_owing, is_settled, determine_status_from_balance, update_status_from_payments,
  log_event,
}

settled_cut :
    (r w : ℤ)
    → w ≡ r
    → ((ltb_ℤ zero_ℤ (max_ℤ zero_ℤ (zero_ℤ -ℤ w))
          || eq_ℤ (if ltb_ℤ r zero_ℤ then zero_ℤ else r) zero_ℤ)
        ≡ true)
      ↔ (r ≤ℤ zero_ℤ)
settled_cut r w e = grind int_laws

owing_raw : (a c d p : ℤ) → a -ℤ c +ℤ d -ℤ p ≡ a -ℤ p -ℤ c +ℤ d
owing_raw a c d p = grind int_laws

pub is_settled_iff :
    (id : ℕ) (invoice : Invoice) (t : Table ℕ Payment)
    → (is_settled id invoice t ≡ true) ↔ (raw_balance id invoice t ≤ℤ zero_ℤ)
unfolding is_settled calculate_credit_owing balance_due raw_balance
is_settled_iff id invoice t = settled_cut (raw_balance id invoice t) _ (
    owing_raw invoice.total_amount invoice.amount_credited invoice.amount_debited
      (amount_paid id t))

pub update_status-Restated :
    (now id : ℕ) (invoice : Invoice) (user_id : ℕ) (s : ReceivableStore)
    → lookup id s.invoices ≡ some invoice
    → Restated s (update_status_from_payments now id invoice user_id s).2
unfolding update_status_from_payments log_event
update_status-Restated now id invoice user_id s found =
    let status = determine_status_from_balance id invoice s.payments (utc_today now) in
    elim (Bool-cases (same_status status invoice.status)) [
      | inl same ↦ rw same (Restated-refl s)
      | inr changed ↦ rw changed (record {
        payments = refl;
        keys = refl;
        invoices = λ j. terms-put id j invoice status s.invoices (lookup id s.invoices) found refl;
        workspaces = refl;
        clients = λ j. refl;
        invoice_events = and_then as_it_was;
        credit_events = as_it_was;
      })
    ]

paid_only :
    (c l a : Bool)
    → (if c then paid else if l then overdue else if a then partially_paid else sent) ≡ paid
    → c ≡ true
paid_only c l a h = grind arith

-- An invoice that is neither a draft nor cancelled is determined to be PAID exactly where its total,
-- less what was paid and credited and with what was debited, is not above zero.
pub determine_status_paid :
    (id : ℕ) (invoice : Invoice) (t : Table ℕ Payment) (today : ℕ)
    → (is_cancelled invoice.status || is_draft invoice.status) ≡ false
    → (determine_status_from_balance id invoice t today ≡ paid)
      ↔ (raw_balance id invoice t ≤ℤ zero_ℤ)
unfolding determine_status_from_balance
determine_status_paid id invoice t today live =
    let (to, from) = is_settled_iff id invoice t in
    rw live (
      λ h. to (
          paid_only (is_settled id invoice t) (should_mark_overdue id invoice t today)
            (ltb_ℤ zero_ℤ (amount_paid id t)) h),
      λ h. rw (from h) refl,
    )
