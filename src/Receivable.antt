-- ===== src/Receivable.antt =====
-- backend/app/models/invoice.py, payment.py, idempotency_key.py, invoice_event.py and
-- credit_status_event.py, and of client.py and workspace.py the columns that credit control reads.
-- Amounts are hundredths, dates are days and times seconds. Keys and references that are only
-- compared stand as numbers; the times at which a row was written are left out.
pub mod Balance
pub mod Restated
pub mod Paid
use Prim.Native.String.{String}
use rezorpay_pro.Common.{
  ℕ, ℤ, zero_ℤ, pos, Bool, true, false, ◌&&◌, Option, none, some, List, [], ◌∷◌, Table, ltb_ℤ, ◌-ℤ◌,
  ◌+ℤ◌, ◌==◌, if◌then◌else◌, sum_by, nat_eq,
}

pub data PaymentMethod : Type 0 where
  cash bank_transfer cheque pdc credit_card : PaymentMethod

abbrev pub is_pdc : PaymentMethod → Bool
is_pdc pdc = true
is_pdc _ = false

pub data PdcStatus : Type 0 where
  received deposited cleared bounced returned : PdcStatus

pub data PaymentStatus : Type 0 where
  pending success failed cancelled refunded : PaymentStatus

pub record Payment : Type 0 where
  pub invoice_id : ℕ
  pub amount : ℤ
  pub payment_date : ℕ
  pub payment_method : PaymentMethod
  pub status : PaymentStatus
  pub reference_number : Option String
  pub bank_name : Option String
  pub pdc_date : Option ℕ
  pub pdc_status : Option PdcStatus
  pub gateway_transaction_id : Option ℕ

pub data InvoiceStatus : Type 0 where
  draft sent partially_paid paid overdue cancelled : InvoiceStatus

-- The text of a status, as an event keeps it.
abbrev pub value : InvoiceStatus → String
value draft = "DRAFT"
value sent = "SENT"
value partially_paid = "PARTIALLY_PAID"
value paid = "PAID"
value overdue = "OVERDUE"
value cancelled = "CANCELLED"

pub record Invoice : Type 0 where
  pub workspace_id : ℕ
  pub client_id : ℕ
  pub total_amount : ℤ
  pub amount_credited : ℤ
  pub amount_debited : ℤ
  pub status : InvoiceStatus
  pub due_date : ℕ
  pub is_deleted : Bool

pub record IdempotencyKey : Type 0 where
  pub workspace_id : ℕ
  pub key : ℕ
  pub payment_id : ℕ
  pub expires_at : ℕ

pub data InvoiceEventType : Type 0 where
  invoice_created invoice_updated invoice_sent invoice_viewed : InvoiceEventType
  payment_added status_changed invoice_voided credit_note_issued debit_note_issued :
      InvoiceEventType

pub record InvoiceEvent : Type 0 where
  pub invoice_id : ℕ
  pub event_type : InvoiceEventType
  pub previous_status : Option String
  pub new_status : String
  pub changed_by : ℕ

pub data CreditStatus : Type 0 where
  active warning hold : CreditStatus

pub data CreditEventReason : Type 0 where
  evaluate payment send_check receive_check dn_confirm : CreditEventReason

pub record CreditStatusEvent : Type 0 where
  pub client_id : ℕ
  pub workspace_id : ℕ
  pub previous_status : CreditStatus
  pub new_status : CreditStatus
  pub exposure : ℤ
  pub effective_limit : ℤ
  pub oldest_overdue_days : Option ℕ
  pub reason : CreditEventReason
  pub changed_by : Option ℕ
  pub timestamp : ℕ

pub record Client : Type 0 where
  pub workspace_id : ℕ
  pub credit_limit : Option ℤ
  pub payment_terms_days : ℕ
  pub credit_status : CreditStatus
  pub credit_status_changed_at : Option ℕ
  pub credit_status_changed_by : Option ℕ
  pub credit_balance : ℤ
  pub is_deleted : Bool

pub record Workspace : Type 0 where
  pub credit_limit_default : ℤ
  pub credit_warning_days : ℕ
  pub credit_hold_days : ℕ

-- The tables of the receivables.
pub record ReceivableStore : Type 0 where
  pub workspaces : Table ℕ Workspace
  pub clients : Table ℕ Client
  pub invoices : Table ℕ Invoice
  pub payments : Table ℕ Payment
  pub idempotency_keys : List IdempotencyKey
  pub invoice_events : List InvoiceEvent
  pub credit_events : List CreditStatusEvent

abbrev pub is_success : PaymentStatus → Bool
is_success success = true
is_success _ = false

-- What a payment takes off the balance of an invoice.
abbrev pub counted_for : ℕ → Payment → ℤ
counted_for invoice_id p =
    if p.invoice_id == invoice_id && is_success p.status then p.amount else zero_ℤ

unfoldable pub amount_paid : ℕ → Table ℕ Payment → ℤ
amount_paid invoice_id payments = sum_by (λ payment_id p. counted_for invoice_id p) payments

-- `total_amount - amount_paid - credited + debited`, before it is cut off at zero.
unfoldable pub raw_balance : ℕ → Invoice → Table ℕ Payment → ℤ
unfolding amount_paid
raw_balance invoice_id invoice payments =
    invoice.total_amount
    -ℤ amount_paid invoice_id payments
    -ℤ invoice.amount_credited
    +ℤ invoice.amount_debited

unfoldable pub balance_due : ℕ → Invoice → Table ℕ Payment → ℤ
unfolding raw_balance
balance_due invoice_id invoice payments =
    let raw = raw_balance invoice_id invoice payments in if ltb_ℤ raw zero_ℤ then zero_ℤ else raw

-- Marks of the statuses that the services test for.
abbrev pub is_draft : InvoiceStatus → Bool
is_draft draft = true
is_draft _ = false

abbrev pub is_cancelled : InvoiceStatus → Bool
is_cancelled cancelled = true
is_cancelled _ = false

abbrev pub same_status : InvoiceStatus → InvoiceStatus → Bool
same_status draft draft = true
same_status sent sent = true
same_status partially_paid partially_paid = true
same_status paid paid = true
same_status overdue overdue = true
same_status cancelled cancelled = true
same_status _ _ = false
