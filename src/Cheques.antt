-- ===== src/Cheques.antt =====
-- services/pdc_service.py: the life of a post-dated cheque. A call returns the store; the payment is
-- the row of the id it was given. The times of update and the log are left out.
pub mod Machine
pub mod Ready
pub mod Moves
pub mod Runs
pub mod Effect
pub mod Ends
use rezorpay_pro.Common.{
  ℕ, ℤ, Bool, true, false, not, ◌&&◌, ◌||◌, Option, none, some, ltb, ltb_ℤ, ◌==◌, if◌then◌else◌,
  lookup, put, nat_eq, Result, ok, http, not_found, invalid_state, insufficient_permissions,
  validation_error, payment_exceeds_balance, ◌>>=◌, ◌>>◌, raise_if, or_raise,
}
use rezorpay_pro.Stock.Ledger.{User, is_manager}
use rezorpay_pro.Receivable.{
  Invoice, is_pdc, PdcStatus, received, deposited, cleared, bounced, returned, PaymentStatus,
  pending, success, failed, is_success, Payment, ReceivableStore, balance_due,
}
use rezorpay_pro.Credit.{utc_today}
use rezorpay_pro.Invoicing.{update_status_from_payments}
use rezorpay_pro.Payments.{load_invoice}
use rezorpay_pro.Payments.Record.{evaluate_parties}

abbrev pub is_pending : PaymentStatus → Bool
is_pending pending = true
is_pending _ = false

abbrev pub is_at : PdcStatus → Option PdcStatus → Bool
is_at received (some received) = true
is_at deposited (some deposited) = true
is_at cleared (some cleared) = true
is_at bounced (some bounced) = true
is_at returned (some returned) = true
is_at _ _ = false

abbrev pub cleared_already : Payment → Bool
cleared_already p = is_at cleared p.pdc_status || (is_success p.status && is_pdc p.payment_method)

unfoldable pub lock_payment : ℕ → ℕ → ReceivableStore → Option Payment
lock_payment invoice_id payment_id s = elim (lookup payment_id s.payments) [
  | none ↦ none
  | some p ↦ if p.invoice_id == invoice_id then some p else none
]

-- The invoice and the payment, for an owner or an admin, if the payment is a post-dated cheque.
unfoldable pub ready : ℕ → ℕ → ℕ → User → ReceivableStore → Result (Invoice × Payment)
unfolding load_invoice lock_payment
ready workspace_id invoice_id payment_id user s = do
  invoice ← or_raise (load_invoice workspace_id invoice_id s) (http 404 not_found)
  p ← or_raise (lock_payment invoice_id payment_id s) (http 404 not_found)
  raise_if (not (is_manager user.role)) (http 403 insufficient_permissions)
  raise_if (not (is_pdc p.payment_method)) (http 403 invalid_state)
  ok (invoice, p)

-- Writes the two columns that a step changes.
abbrev pub write : ℕ → Payment → PaymentStatus → PdcStatus → ReceivableStore → ReceivableStore
write payment_id p status pdc_status s =
    let changed : Payment = record p { status = status; pdc_status = some pdc_status } in
    record s { payments = put payment_id changed s.payments }

abbrev pub is_early : Option ℕ → ℕ → Bool
is_early none today = true
is_early (some date) today = ltb today date

unfoldable pub deposit : ℕ → ℕ → ℕ → ℕ → User → ReceivableStore → Result ReceivableStore
unfolding ready utc_today
deposit now workspace_id invoice_id payment_id user s = do
  (invoice, p) ← ready workspace_id invoice_id payment_id user s
  let steps = do
    raise_if (cleared_already p) (http 403 invalid_state)
    raise_if (not (is_at received p.pdc_status) || not (is_pending p.status))
        (http 403 invalid_state)
    raise_if (is_early p.pdc_date (utc_today now)) (http 400 validation_error)
    ok (write payment_id p p.status deposited s)
  if is_at deposited p.pdc_status && is_pending p.status then ok s else steps

unfoldable pub clear : ℕ → ℕ → ℕ → ℕ → User → ReceivableStore → Result ReceivableStore
unfolding ready balance_due update_status_from_payments
clear now workspace_id invoice_id payment_id user s = do
  (invoice, p) ← ready workspace_id invoice_id payment_id user s
  let steps = do
    raise_if (not (is_at deposited p.pdc_status)) (http 403 invalid_state)
    raise_if (ltb_ℤ (balance_due invoice_id invoice s.payments) p.amount)
        (http 400 payment_exceeds_balance)
    ok
        (update_status_from_payments now invoice_id invoice user.id
          (write payment_id p success cleared s)).2
  if cleared_already p then ok s else steps

unfoldable pub bounce : ℕ → ℕ → ℕ → ℕ → User → ReceivableStore → Result ReceivableStore
unfolding ready evaluate_parties
bounce now workspace_id invoice_id payment_id user s = do
  (invoice, p) ← ready workspace_id invoice_id payment_id user s
  let steps = do
    raise_if (cleared_already p) (http 403 invalid_state)
    raise_if (not (is_at deposited p.pdc_status)) (http 403 invalid_state)
    ok (
        evaluate_parties now invoice.workspace_id invoice user.id
          (write payment_id p failed bounced s))
  if is_at bounced p.pdc_status then ok s else steps

unfoldable pub return_cheque : ℕ → ℕ → ℕ → ℕ → User → ReceivableStore → Result ReceivableStore
unfolding ready
return_cheque now workspace_id invoice_id payment_id user s = do
  (invoice, p) ← ready workspace_id invoice_id payment_id user s
  let steps = do
    raise_if (cleared_already p) (http 403 invalid_state)
    raise_if (not (is_at received p.pdc_status) || not (is_pending p.status))
        (http 403 invalid_state)
    ok (write payment_id p PaymentStatus.cancelled returned s)
  if is_at returned p.pdc_status then ok s else steps
