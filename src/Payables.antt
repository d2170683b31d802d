-- ===== src/Payables.antt =====
-- What the application owes its suppliers: of backend/app/models/supplier_invoice.py,
-- supplier_payment.py and supplier_invoice_event.py the columns that the payments read and write, and
-- how a payment settles an invoice and a reversal undoes it (services/supplier_payment_service.py and
-- supplier_payment_reversal_service.py). The idempotency keys have the columns of those of customer
-- payments.
pub mod Record
pub mod Issued
pub mod Reverse
pub mod Book
pub mod Served
pub mod Calls
pub mod Recorded
pub mod Booking
pub mod Undo
pub mod Settling
pub mod Undone
use Prim.Native.String.{String}
use rezorpay_pro.Common.{
  ℕ, ℤ, zero_ℤ, Bool, true, false, ◌&&◌, Option, none, some, List, ◌∷◌, Table, eq_ℤ, ltb_ℤ, max_ℤ,
  ◌+ℤ◌, ◌-ℤ◌, ◌==◌, if◌then◌else◌, lookup, put, nat_eq,
}
use rezorpay_pro.Receivable.{PaymentMethod, PaymentStatus, is_success, PdcStatus, IdempotencyKey}

pub data SupplierInvoiceStatus : Type 0 where
  received pending_matching matched discrepancy : SupplierInvoiceStatus
  approved partially_paid paid cancelled : SupplierInvoiceStatus

pub record SupplierInvoice : Type 0 where
  pub workspace_id : ℕ
  pub supplier_id : ℕ
  pub amount_paid : ℤ
  pub balance_due : ℤ
  pub status : SupplierInvoiceStatus
  pub paid_at : Option ℕ

pub record SupplierPayment : Type 0 where
  pub workspace_id : ℕ
  pub supplier_id : ℕ
  pub supplier_invoice_id : ℕ
  pub amount : ℤ
  pub payment_date : ℕ
  pub payment_method : PaymentMethod
  pub status : PaymentStatus
  pub reference_number : Option String
  pub bank_name : Option String
  pub pdc_date : Option ℕ
  pub pdc_status : Option PdcStatus
  pub created_by : ℕ

pub data SupplierInvoiceEventType : Type 0 where
  created match_submitted matched discrepancy discrepancy_resolved : SupplierInvoiceEventType
  approved partially_paid paid payment_reversed debit_note_applied : SupplierInvoiceEventType

-- The two statuses stand for the texts of their values.
pub record SupplierInvoiceEvent : Type 0 where
  pub supplier_invoice_id : ℕ
  pub workspace_id : ℕ
  pub event_type : SupplierInvoiceEventType
  pub previous_status : SupplierInvoiceStatus
  pub new_status : SupplierInvoiceStatus
  pub actor_id : ℕ

pub record PayableStore : Type 0 where
  pub invoices : Table ℕ SupplierInvoice
  pub payments : Table ℕ SupplierPayment
  pub idempotency_keys : List IdempotencyKey
  pub events : List SupplierInvoiceEvent

abbrev pub is_approved : SupplierInvoiceStatus → Bool
is_approved SupplierInvoiceStatus.approved = true
is_approved _ = false

abbrev pub is_part_paid : SupplierInvoiceStatus → Bool
is_part_paid SupplierInvoiceStatus.partially_paid = true
is_part_paid _ = false

abbrev pub is_paid : SupplierInvoiceStatus → Bool
is_paid SupplierInvoiceStatus.paid = true
is_paid _ = false

abbrev pub or_now : ℕ → Option ℕ → Option ℕ
or_now now none = some now
or_now now (some time) = some time

-- `_settle_invoice`.
unfoldable pub settle_invoice : ℕ → SupplierInvoice → ℤ → SupplierInvoice
settle_invoice now invoice amount =
    let due = max_ℤ zero_ℤ (invoice.balance_due -ℤ amount) in
    let settled : SupplierInvoice = record invoice {
      amount_paid = invoice.amount_paid +ℤ amount;
      balance_due = due;
    } in
    if eq_ℤ due zero_ℤ
    then record settled {
      status = SupplierInvoiceStatus.paid;
      paid_at = or_now now invoice.paid_at;
    }
    else if is_approved invoice.status
    then record settled { status = SupplierInvoiceStatus.partially_paid }
    else settled

abbrev pub back_from_paid : SupplierInvoiceStatus → SupplierInvoiceStatus
back_from_paid status = if is_paid status then SupplierInvoiceStatus.partially_paid else status

-- `_reverse_settlement`.
unfoldable pub reverse_settlement : SupplierInvoice → ℤ → SupplierInvoice
reverse_settlement invoice amount =
    let left = invoice.amount_paid -ℤ amount in
    let due = invoice.balance_due +ℤ amount in
    let reversed : SupplierInvoice = record invoice { amount_paid = left; balance_due = due } in
    let status = back_from_paid invoice.status in
    if ltb_ℤ zero_ℤ due
    then record reversed {
      paid_at = none;
      status =
          if is_part_paid status && eq_ℤ left zero_ℤ
          then SupplierInvoiceStatus.approved
          else status;
    }
    else reversed

-- `_lock_invoice` and `_lock_payment`.
unfoldable pub lock_supplier_invoice : ℕ → ℕ → PayableStore → Option SupplierInvoice
lock_supplier_invoice workspace_id id s = elim (lookup id s.invoices) [
  | none ↦ none
  | some invoice ↦ if invoice.workspace_id == workspace_id then some invoice else none
]

unfoldable pub lock_supplier_payment : ℕ → ℕ → PayableStore → Option SupplierPayment
lock_supplier_payment invoice_id id s = elim (lookup id s.payments) [
  | none ↦ none
  | some p ↦ if p.supplier_invoice_id == invoice_id then some p else none
]

-- `emit_event` of services/supplier_invoice_events.py; the newest event stands first.
unfoldable pub emit_event :
    ℕ
    → ℕ
    → SupplierInvoiceEventType
    → ℕ
    → SupplierInvoiceStatus
    → SupplierInvoiceStatus
    → PayableStore
    → PayableStore
emit_event invoice_id workspace_id event_type actor_id previous_status new_status s =
    let event : SupplierInvoiceEvent = record {
      supplier_invoice_id = invoice_id;
      workspace_id = workspace_id;
      event_type = event_type;
      previous_status = previous_status;
      new_status = new_status;
      actor_id = actor_id;
    } in
    record s { events = event ∷ s.events }

abbrev pub paid_event : SupplierInvoiceStatus → SupplierInvoiceEventType
paid_event status =
    if is_paid status
    then SupplierInvoiceEventType.paid
    else SupplierInvoiceEventType.partially_paid

-- Settles an invoice by an amount, writes it and logs it.
unfoldable pub settle : ℕ → ℕ → ℕ → SupplierInvoice → ℤ → ℕ → PayableStore → PayableStore
unfolding settle_invoice emit_event
settle now workspace_id id invoice amount user_id s =
    let settled = settle_invoice now invoice amount in
    emit_event id workspace_id (paid_event settled.status) user_id invoice.status settled.status
      (record s { invoices = put id settled s.invoices })
