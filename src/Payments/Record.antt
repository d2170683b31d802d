-- ===== src/Payments/Record.antt =====
-- `record_payment` of services/payment_service.py, in the order of its statements.
use rezorpay_pro.Common.{
  ℕ, not, Option, none, some, ◌∷◌, ltb, ltb_ℤ, ◌+◌, if◌then◌else◌, lookup, nat_eq, Result, ok, err,
  http, value_error, not_found, payment_exceeds_balance, ◌>>=◌, ◌>>◌, raise_if, or_raise,
}
use rezorpay_pro.Receivable.{
  Invoice, InvoiceStatus, Payment, PaymentStatus, PdcStatus, IdempotencyKey, CreditEventReason,
  value, payment_added, ReceivableStore, balance_due,
}
use rezorpay_pro.Credit.{utc_today}
use rezorpay_pro.Credit.Evaluate.{evaluate}
use rezorpay_pro.Invoicing.{update_status_from_payments, log_event}
use rezorpay_pro.Payments.{
  PaymentRequest, insert_status, load_invoice, find_key, delete_key, insert_payment,
}

-- A key lives for 48 hours.
abbrev pub key_ttl : ℕ
key_ttl = 172_800

-- The key of a payment that is recorded now.
abbrev pub key_row : ℕ → ℕ → ℕ → ℕ → IdempotencyKey
key_row now workspace_id key payment_id = record {
  workspace_id = workspace_id;
  key = key;
  payment_id = payment_id;
  expires_at = now + key_ttl;
}

-- The payment that a live key stands for.
unfoldable pub replay : IdempotencyKey → ReceivableStore → Result (ℕ × ReceivableStore)
replay row s = elim (lookup row.payment_id s.payments) [
  | none ↦ err value_error
  | some p ↦ ok (row.payment_id, s)
]

abbrev pub payment_of :
    ℕ → ℕ → PaymentRequest → PaymentStatus × Option ℕ × Option PdcStatus → Payment
payment_of now invoice_id request (status, pdc_date, pdc_status) = record {
  invoice_id = invoice_id;
  amount = request.amount;
  payment_date = elim request.payment_date [ none ↦ utc_today now | some date ↦ date ];
  payment_method = request.payment_method;
  status = status;
  reference_number = request.reference_number;
  bank_name = request.bank_name;
  pdc_date = pdc_date;
  pdc_status = pdc_status;
  gateway_transaction_id = request.gateway_transaction_id;
}

-- Where the workspace and the client of the invoice exist.
unfoldable pub evaluate_parties : ℕ → ℕ → Invoice → ℕ → ReceivableStore → ReceivableStore
unfolding evaluate
evaluate_parties now workspace_id invoice user_id s = elim (lookup workspace_id s.workspaces) [
  | none ↦ s
  | some workspace ↦ elim (lookup invoice.client_id s.clients) [
    | none ↦ s
    | some client ↦
        (evaluate now invoice.client_id client workspace_id workspace (some user_id)
          CreditEventReason.payment s).1
  ]
]

-- The status of the invoice object after its row may have been flipped.
abbrev pub status_of : ℕ → Invoice → ReceivableStore → InvoiceStatus
status_of id invoice s = elim (lookup id s.invoices) [
  | none ↦ invoice.status
  | some row ↦ row.status
]

-- What follows the insertion of the payment: the status of the invoice, the credit of the client and
-- the audit.
unfoldable pub settle_payment : ℕ → ℕ → ℕ → Invoice → ℕ → ReceivableStore → ReceivableStore
unfolding update_status_from_payments evaluate_parties log_event
settle_payment now workspace_id invoice_id invoice user_id s =
    let (changed, updated, t) = update_status_from_payments now invoice_id invoice user_id s in
    let u = evaluate_parties now workspace_id updated user_id t in
    let status = value (status_of invoice_id updated u) in
    log_event invoice_id payment_added user_id (some (if not changed then status else "sent"))
      status u

unfoldable pub add_payment :
    ℕ
    → ℕ
    → ℕ
    → Invoice
    → ℕ
    → ℕ
    → ℕ
    → PaymentRequest
    → ReceivableStore
    → Result (ℕ × ReceivableStore)
unfolding balance_due insert_status insert_payment settle_payment
add_payment now workspace_id invoice_id invoice user_id key payment_id request s = do
  raise_if (ltb_ℤ (balance_due invoice_id invoice s.payments) request.amount)
      (http 400 payment_exceeds_balance)
  columns ← insert_status request.payment_method request.pdc_date
  t ← insert_payment payment_id (payment_of now invoice_id request columns) s
  let u = record t {
    idempotency_keys = key_row now workspace_id key payment_id ∷ t.idempotency_keys;
  }
  ok (payment_id, settle_payment now workspace_id invoice_id invoice user_id u)

-- The id of the payment, and the store.
unfoldable pub record_payment :
    ℕ → ℕ → ℕ → ℕ → ℕ → ℕ → PaymentRequest → ReceivableStore → Result (ℕ × ReceivableStore)
unfolding load_invoice find_key delete_key replay add_payment
record_payment now workspace_id invoice_id user_id key payment_id request s = do
  invoice ← or_raise (load_invoice workspace_id invoice_id s) (http 404 not_found)
  elim (find_key workspace_id key s.idempotency_keys) [
    | none ↦ add_payment now workspace_id invoice_id invoice user_id key payment_id request s
    | some row ↦
        if ltb now row.expires_at
        then replay row s
        else add_payment now workspace_id invoice_id invoice user_id key payment_id request
            (record s { idempotency_keys = delete_key workspace_id key s.idempotency_keys })
  ]
