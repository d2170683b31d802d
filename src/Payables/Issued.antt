-- ===== src/Payables/Issued.antt =====
-- services/supplier_pdc_service.py: the life of a post-dated cheque that was issued to a supplier.
use rezorpay_pro.Common.{
  ℕ, Bool, not, ◌&&◌, ◌||◌, some, ltb_ℤ, if◌then◌else◌, put, nat_eq, Result, ok, http, not_found,
  invalid_state, insufficient_permissions, validation_error, payment_exceeds_balance, ◌>>=◌, ◌>>◌,
  raise_if, or_raise,
}
use rezorpay_pro.Stock.Ledger.{User, is_manager}
use rezorpay_pro.Receivable.{is_pdc, PdcStatus, PaymentStatus, is_success}
use rezorpay_pro.Credit.{utc_today}
use rezorpay_pro.Cheques.{is_at, is_pending, is_early}
use rezorpay_pro.Payables.{
  SupplierInvoice, SupplierPayment, PayableStore, lock_supplier_invoice, lock_supplier_payment,
  settle,
}

abbrev pub is_cleared : SupplierPayment → Bool
is_cleared p =
    is_at PdcStatus.cleared p.pdc_status || (is_success p.status && is_pdc p.payment_method)

unfoldable pub supplier_ready :
    ℕ → ℕ → ℕ → User → PayableStore → Result (SupplierInvoice × SupplierPayment)
unfolding lock_supplier_invoice lock_supplier_payment
supplier_ready workspace_id invoice_id payment_id user s = do
  invoice ← or_raise (lock_supplier_invoice workspace_id invoice_id s) (http 404 not_found)
  p ← or_raise (lock_supplier_payment invoice_id payment_id s) (http 404 not_found)
  raise_if (not (is_manager user.role)) (http 403 insufficient_permissions)
  raise_if (not (is_pdc p.payment_method)) (http 403 invalid_state)
  ok (invoice, p)

-- Writes the two columns that a step changes.
abbrev pub stamp : ℕ → SupplierPayment → PaymentStatus → PdcStatus → PayableStore → PayableStore
stamp payment_id p status pdc_status s =
    let changed : SupplierPayment = record p { status = status; pdc_status = some pdc_status } in
    record s { payments = put payment_id changed s.payments }

unfoldable pub supplier_deposit : ℕ → ℕ → ℕ → ℕ → User → PayableStore → Result PayableStore
unfolding supplier_ready utc_today
supplier_deposit now workspace_id invoice_id payment_id user s = do
  (invoice, p) ← supplier_ready workspace_id invoice_id payment_id user s
  let steps = do
    raise_if (is_cleared p) (http 403 invalid_state)
    raise_if (not (is_at PdcStatus.received p.pdc_status) || not (is_pending p.status))
        (http 403 invalid_state)
    raise_if (is_early p.pdc_date (utc_today now)) (http 400 validation_error)
    ok (stamp payment_id p p.status PdcStatus.deposited s)
  if is_at PdcStatus.deposited p.pdc_status && is_pending p.status then ok s else steps

unfoldable pub supplier_clear : ℕ → ℕ → ℕ → ℕ → User → PayableStore → Result PayableStore
unfolding supplier_ready settle
supplier_clear now workspace_id invoice_id payment_id user s = do
  (invoice, p) ← supplier_ready workspace_id invoice_id payment_id user s
  let steps = do
    raise_if (not (is_at PdcStatus.deposited p.pdc_status)) (http 403 invalid_state)
    raise_if (ltb_ℤ invoice.balance_due p.amount) (http 400 payment_exceeds_balance)
    ok (
        settle now workspace_id invoice_id invoice p.amount user.id
          (stamp payment_id p PaymentStatus.success PdcStatus.cleared s))
  if is_cleared p then ok s else steps

unfoldable pub supplier_bounce : ℕ → ℕ → ℕ → User → PayableStore → Result PayableStore
unfolding supplier_ready
supplier_bounce workspace_id invoice_id payment_id user s = do
  (invoice, p) ← supplier_ready workspace_id invoice_id payment_id user s
  let steps = do
    raise_if (is_cleared p) (http 403 invalid_state)
    raise_if (not (is_at PdcStatus.deposited p.pdc_status)) (http 403 invalid_state)
    ok (stamp payment_id p PaymentStatus.failed PdcStatus.bounced s)
  if is_at PdcStatus.bounced p.pdc_status then ok s else steps

unfoldable pub supplier_return_cheque : ℕ → ℕ → ℕ → User → PayableStore → Result PayableStore
unfolding supplier_ready
supplier_return_cheque workspace_id invoice_id payment_id user s = do
  (invoice, p) ← supplier_ready workspace_id invoice_id payment_id user s
  let steps = do
    raise_if (is_cleared p) (http 403 invalid_state)
    raise_if (not (is_at PdcStatus.received p.pdc_status) || not (is_pending p.status))
        (http 403 invalid_state)
    ok (stamp payment_id p PaymentStatus.cancelled PdcStatus.returned s)
  if is_at PdcStatus.returned p.pdc_status then ok s else steps
