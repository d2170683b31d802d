-- ===== src/Invoicing.antt =====
-- services/invoice_service.py: the status of an invoice against its payments, and its ends. The
-- reason and the other metadata of an event (services/audit_service.py) are left out.
pub mod Settle
use Prim.Native.String.{String}
use rezorpay_pro.Common.{
  ℕ, ℤ, zero_ℤ, Bool, true, false, ◌||◌, not, Option, none, some, ◌∷◌, Table, ltb_ℤ, eq_ℤ, max_ℤ,
  ◌-ℤ◌, ◌+ℤ◌, if◌then◌else◌, put, nat_eq, Result, ok, http, invalid_state, value_error, ◌>>=◌, ◌>>◌,
  raise_if,
}
use rezorpay_pro.Receivable.{
  Invoice, InvoiceStatus, sent, partially_paid, paid, overdue, is_draft, is_cancelled, same_status,
  value, Payment, InvoiceEvent, InvoiceEventType, status_changed, invoice_voided, ReceivableStore,
  amount_paid, balance_due,
}
use rezorpay_pro.Credit.{should_mark_overdue, utc_today}

unfoldable pub calculate_credit_owing : ℕ → Invoice → Table ℕ Payment → ℤ
unfolding amount_paid
calculate_credit_owing id invoice payments =
    let raw =
      invoice.total_amount
      -ℤ invoice.amount_credited
      +ℤ invoice.amount_debited
      -ℤ amount_paid id payments in
    max_ℤ zero_ℤ (zero_ℤ -ℤ raw)

-- Something is owed back, or nothing is due.
unfoldable pub is_settled : ℕ → Invoice → Table ℕ Payment → Bool
unfolding calculate_credit_owing balance_due
is_settled id invoice payments =
    ltb_ℤ zero_ℤ (calculate_credit_owing id invoice payments)
    || eq_ℤ (balance_due id invoice payments) zero_ℤ

unfoldable pub determine_status_from_balance : ℕ → Invoice → Table ℕ Payment → ℕ → InvoiceStatus
unfolding is_settled should_mark_overdue amount_paid
determine_status_from_balance id invoice payments today =
    if is_cancelled invoice.status || is_draft invoice.status
    then invoice.status
    else if is_settled id invoice payments
    then paid
    else if should_mark_overdue id invoice payments today
    then overdue
    else if ltb_ℤ zero_ℤ (amount_paid id payments)
    then partially_paid
    else sent

-- `AuditService.log_event`; the newest event stands first.
unfoldable pub log_event :
    ℕ → InvoiceEventType → ℕ → Option String → String → ReceivableStore → ReceivableStore
log_event invoice_id event_type user_id previous_status new_status s =
    let event : InvoiceEvent = record {
      invoice_id = invoice_id;
      event_type = event_type;
      previous_status = previous_status;
      new_status = new_status;
      changed_by = user_id;
    } in
    record s { invoice_events = event ∷ s.invoice_events }

-- Whether the status changed, the invoice as it is now, and the store.
unfoldable pub update_status_from_payments :
    ℕ → ℕ → Invoice → ℕ → ReceivableStore → Bool × Invoice × ReceivableStore
unfolding determine_status_from_balance log_event utc_today
update_status_from_payments now id invoice user_id s =
    let status = determine_status_from_balance id invoice s.payments (utc_today now) in
    if same_status status invoice.status
    then (false, invoice, s)
    else let changed = record invoice { status = status } in
      (
        true,
        changed,
        log_event id status_changed user_id (some (value invoice.status)) (value status)
            (record s { invoices = put id changed s.invoices }),
      )
