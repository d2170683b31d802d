-- ===== src/Payables/Reverse.antt =====
-- `reverse_payment` of services/supplier_payment_reversal_service.py.
use rezorpay_pro.Common.{
  ℕ, Bool, true, false, not, ◌||◌, ltb_ℤ, if◌then◌else◌, put, nat_eq, Result, ok, http, not_found,
  invalid_state, insufficient_permissions, payment_exceeds_balance, ◌>>=◌, ◌>>◌, raise_if, or_raise,
}
use rezorpay_pro.Stock.Ledger.{User, is_manager}
use rezorpay_pro.Receivable.{is_pdc, PaymentStatus, is_success}
use rezorpay_pro.Payables.{
  SupplierInvoice, SupplierInvoiceStatus, SupplierInvoiceEventType, SupplierPayment, PayableStore,
  is_approved, is_part_paid, is_paid, lock_supplier_invoice, lock_supplier_payment,
  reverse_settlement, emit_event,
}

abbrev pub is_failed : PaymentStatus → Bool
is_failed PaymentStatus.failed = true
is_failed _ = false

abbrev pub is_reversible : SupplierInvoiceStatus → Bool
is_reversible status = is_approved status || is_part_paid status || is_paid status

-- Writes the payment as failed and the invoice as it was without it.
unfoldable pub unsettle :
    ℕ → ℕ → SupplierInvoice → ℕ → SupplierPayment → ℕ → PayableStore → PayableStore
unfolding reverse_settlement emit_event
unsettle workspace_id invoice_id invoice payment_id p user_id s =
    let failing : SupplierPayment = record p { status = PaymentStatus.failed } in
    let reversed = reverse_settlement invoice p.amount in
    emit_event invoice_id workspace_id SupplierInvoiceEventType.payment_reversed user_id
      invoice.status reversed.status
      (record s {
        payments = put payment_id failing s.payments;
        invoices = put invoice_id reversed s.invoices;
      })

unfoldable pub reverse_payment : ℕ → ℕ → ℕ → User → PayableStore → Result PayableStore
unfolding lock_supplier_invoice lock_supplier_payment unsettle
reverse_payment workspace_id invoice_id payment_id user s = do
  invoice ← or_raise (lock_supplier_invoice workspace_id invoice_id s) (http 404 not_found)
  p ← or_raise (lock_supplier_payment invoice_id payment_id s) (http 404 not_found)
  raise_if (not (is_manager user.role)) (http 403 insufficient_permissions)
  raise_if (is_pdc p.payment_method) (http 403 invalid_state)
  let steps = do
    raise_if (not (is_success p.status)) (http 403 invalid_state)
    raise_if (not (is_reversible invoice.status)) (http 403 invalid_state)
    raise_if (ltb_ℤ invoice.amount_paid p.amount) (http 400 payment_exceeds_balance)
    ok (unsettle workspace_id invoice_id invoice payment_id p user.id s)
  if is_failed p.status then ok s else steps
