-- ===== src/Payments.antt =====
-- services/payment_service.py: a payment of an invoice is recorded once for a key.

pub mod Record
pub mod Cap
pub mod Once
pub mod Books
pub mod Retry
pub mod Recorded
use Prim.Native.String.{String}
use rezorpay_pro.Common.{
  ℕ, ℤ, zero_ℤ, Bool, true, false, ◌&&◌, ◌||◌, err, not, Option, none, some, List, [], ◌∷◌, Table,
  ltb, ltb_ℤ, ◌+◌, ◌==◌, is_some_of, if◌then◌else◌, put, lookup, nat_eq, Result, ok, http,
  integrity, value_error, not_found, validation_error, payment_exceeds_balance, ◌>>=◌, ◌>>◌,
  raise_if, or_raise, ⊤,
}
use rezorpay_pro.Receivable.{
  Invoice, PaymentMethod, cheque, pdc, PaymentStatus, pending, success, PdcStatus, received,
  Payment, IdempotencyKey, CreditEventReason, InvoiceStatus, value, payment_added, ReceivableStore,
  balance_due,
}
use rezorpay_pro.Credit.{utc_today}
use rezorpay_pro.Credit.Evaluate.{evaluate}
use rezorpay_pro.Invoicing.{update_status_from_payments, log_event}

-- What the caller of `record_payment` says of the payment. Its `pdc_status` is written over.
pub record PaymentRequest : Type 0 where
  pub amount : ℤ
  pub payment_method : PaymentMethod
  pub payment_date : Option ℕ
  pub reference_number : Option String
  pub bank_name : Option String
  pub pdc_date : Option ℕ
  pub gateway_transaction_id : Option ℕ

-- `_insert_status`.
unfoldable pub insert_status :
    PaymentMethod → Option ℕ → Result (PaymentStatus × Option ℕ × Option PdcStatus)
insert_status cheque pdc_date = ok (success, none, none)
insert_status pdc none = err (http 422 validation_error)
insert_status pdc (some date) = ok (pending, some date, some received)
insert_status _ pdc_date = ok (success, pdc_date, none)

unfoldable pub load_invoice : ℕ → ℕ → ReceivableStore → Option Invoice
load_invoice workspace_id invoice_id s = elim (lookup invoice_id s.invoices) [
  | none ↦ none
  | some invoice ↦ if invoice.workspace_id == workspace_id then some invoice else none
]

abbrev pub is_key : ℕ → ℕ → IdempotencyKey → Bool
is_key workspace_id key row = (row.workspace_id == workspace_id) && (row.key == key)

unfoldable pub find_key : ℕ → ℕ → List IdempotencyKey → Option IdempotencyKey
find_key workspace_id key [] = none
find_key workspace_id key (row ∷ rows) =
    if is_key workspace_id key row then some row else find_key workspace_id key rows

unfoldable pub delete_key : ℕ → ℕ → List IdempotencyKey → List IdempotencyKey
delete_key workspace_id key [] = []
delete_key workspace_id key (row ∷ rows) =
    let rest = delete_key workspace_id key rows in
    if is_key workspace_id key row then rest else row ∷ rest

-- The transaction id of a payment is unique where it is given.
abbrev pub is_same_gateway : Option ℕ → Option ℕ → Bool
is_same_gateway none other = false
is_same_gateway (some id) other = is_some_of other id

unfoldable pub is_gateway_taken : Option ℕ → Table ℕ Payment → Bool
is_gateway_taken gateway [] = false
is_gateway_taken gateway ((id, p) ∷ rows) =
    is_same_gateway gateway p.gateway_transaction_id || is_gateway_taken gateway rows

abbrev pub is_present : Option Payment → Bool
is_present none = false
is_present (some p) = true

-- Adds a payment under a new id and flushes it.
unfoldable pub insert_payment : ℕ → Payment → ReceivableStore → Result ReceivableStore
unfolding is_gateway_taken
insert_payment id p s = do
  raise_if (is_present (lookup id s.payments)) integrity
  raise_if (ltb_ℤ p.amount zero_ℤ) integrity
  raise_if (is_gateway_taken p.gateway_transaction_id s.payments) integrity
  ok (record s { payments = put id p s.payments })
