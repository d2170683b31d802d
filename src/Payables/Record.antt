-- ===== src/Payables/Record.antt =====
-- `record_payment` of services/supplier_payment_service.py, in the order of its statements.
use Prim.Native.String.{String}
use rezorpay_pro.Common.{
  ℕ, ℤ, zero_ℤ, Bool, true, false, ◌&&◌, ◌||◌, not, Option, none, some, ◌∷◌, ltb, ltb_ℤ, leb_ℤ,
  if◌then◌else◌, lookup, put, nat_eq, Result, ok, err, http, integrity, value_error, not_found,
  invalid_state, validation_error, payment_exceeds_balance, ◌>>=◌, ◌>>◌, raise_if, or_raise,
}
use rezorpay_pro.Receivable.{PaymentMethod, is_pdc, PaymentStatus, PdcStatus, IdempotencyKey}
use rezorpay_pro.Credit.{utc_today}
use rezorpay_pro.Payments.{find_key, delete_key}
use rezorpay_pro.Payments.Record.{key_row}
use rezorpay_pro.Payables.{
  SupplierInvoice, SupplierInvoiceStatus, SupplierPayment, PayableStore, is_approved, is_part_paid,
  lock_supplier_invoice, settle,
}

-- What the caller says of the payment.
pub record SupplierRequest : Type 0 where
  pub amount : ℤ
  pub payment_method : PaymentMethod
  pub payment_date : Option ℕ
  pub reference_number : Option String
  pub bank_name : Option String
  pub pdc_date : Option ℕ

abbrev pub is_payable : SupplierInvoiceStatus → Bool
is_payable status = is_approved status || is_part_paid status

abbrev pub has_no_date : Option ℕ → Bool
has_no_date none = true
has_no_date (some date) = false

abbrev pub supplier_payment_of : ℕ → ℕ → ℕ → SupplierInvoice → ℕ → SupplierRequest → SupplierPayment
supplier_payment_of now workspace_id invoice_id invoice user_id request =
    let cheque = is_pdc request.payment_method in
    record {
      workspace_id = workspace_id;
      supplier_id = invoice.supplier_id;
      supplier_invoice_id = invoice_id;
      amount = request.amount;
      payment_date = elim request.payment_date [ none ↦ utc_today now | some date ↦ date ];
      payment_method = request.payment_method;
      status = if cheque then PaymentStatus.pending else PaymentStatus.success;
      reference_number = request.reference_number;
      bank_name = request.bank_name;
      pdc_date = if cheque then request.pdc_date else none;
      pdc_status = if cheque then some PdcStatus.received else none;
      created_by = user_id;
    }

abbrev pub is_there : Option SupplierPayment → Bool
is_there none = false
is_there (some p) = true

unfoldable pub insert_supplier_payment : ℕ → SupplierPayment → PayableStore → Result PayableStore
insert_supplier_payment id p s = do
  raise_if (is_there (lookup id s.payments)) integrity
  raise_if (leb_ℤ p.amount zero_ℤ) integrity
  ok (record s { payments = put id p s.payments })

unfoldable pub supplier_replay : IdempotencyKey → PayableStore → Result (ℕ × PayableStore)
supplier_replay row s = elim (lookup row.payment_id s.payments) [
  | none ↦ err value_error
  | some p ↦ ok (row.payment_id, s)
]

unfoldable pub add_supplier_payment :
    ℕ
    → ℕ
    → ℕ
    → SupplierInvoice
    → ℕ
    → ℕ
    → ℕ
    → SupplierRequest
    → PayableStore
    → Result (ℕ × PayableStore)
unfolding insert_supplier_payment settle
add_supplier_payment now workspace_id invoice_id invoice user_id key payment_id request s = do
  raise_if (not (is_payable invoice.status)) (http 400 invalid_state)
  raise_if (ltb_ℤ invoice.balance_due request.amount) (http 400 payment_exceeds_balance)
  raise_if (is_pdc request.payment_method && has_no_date request.pdc_date)
      (http 422 validation_error)
  t ←
      insert_supplier_payment payment_id
        (supplier_payment_of now workspace_id invoice_id invoice user_id request) s
  let u = record t {
    idempotency_keys = key_row now workspace_id key payment_id ∷ t.idempotency_keys;
  }
  ok (
    payment_id,
    if not (is_pdc request.payment_method)
        then settle now workspace_id invoice_id invoice request.amount user_id u
        else u,
  )

-- The id of the payment, and the store.
unfoldable pub record_supplier_payment :
    ℕ → ℕ → ℕ → ℕ → ℕ → ℕ → SupplierRequest → PayableStore → Result (ℕ × PayableStore)
unfolding lock_supplier_invoice find_key delete_key supplier_replay add_supplier_payment
record_supplier_payment now workspace_id invoice_id user_id key payment_id request s = do
  invoice ← or_raise (lock_supplier_invoice workspace_id invoice_id s) (http 404 not_found)
  elim (find_key workspace_id key s.idempotency_keys) [
    | none ↦
        add_supplier_payment now workspace_id invoice_id invoice user_id key payment_id request s
    | some row ↦
        if ltb now row.expires_at
        then supplier_replay row s
        else add_supplier_payment now workspace_id invoice_id invoice user_id key payment_id request
            (record s { idempotency_keys = delete_key workspace_id key s.idempotency_keys })
  ]
