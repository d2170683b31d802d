-- ===== src/Payables/Undo.antt =====
-- A reversal (services/supplier_payment_reversal_service.py) of a payment that was just recorded.
use rezorpay_pro.Common.{
  ℕ, ℤ, zero_ℤ, Bool, true, ◌&&◌, none, ◌≡◌, ◌≤ℤ◌, ◌+ℤ◌, ◌-ℤ◌, refl, ap, ◌∙◌, nat_eq, ltb_ℤ, eq_ℤ,
  max_ℤ, if◌then◌else◌, inl, inr, Bool-cases, int_laws, arith,
}
use rezorpay_pro.Payables.{
  SupplierInvoice, SupplierInvoiceStatus, is_approved, is_part_paid, back_from_paid, or_now,
  settle_invoice, reverse_settlement,
}
use rezorpay_pro.Payables.Record.{is_payable}

-- An open invoice whose status fits what is paid: nothing where it is APPROVED, more than nothing
-- where it is PARTIALLY_PAID.
pub record IsOpen (invoice : SupplierInvoice) : Type 0 where
  pub nonneg : zero_ℤ ≤ℤ invoice.amount_paid
  pub payable : is_payable invoice.status ≡ true
  pub untouched : is_approved invoice.status ≡ eq_ℤ invoice.amount_paid zero_ℤ

same_paid : (a b : ℤ) → a +ℤ b -ℤ b ≡ a
same_paid a b = grind int_laws

same_due : (a b : ℤ) → b ≤ℤ a → max_ℤ zero_ℤ (a -ℤ b) +ℤ b ≡ a
same_due a b h = grind int_laws

owing :
    (a b : ℤ) → ltb_ℤ zero_ℤ b ≡ true → b ≤ℤ a → ltb_ℤ zero_ℤ (max_ℤ zero_ℤ (a -ℤ b) +ℤ b) ≡ true
owing a b p h = grind int_laws

-- The status of a settled invoice, and that of the reversal.
abbrev pub settled_status : Bool → SupplierInvoiceStatus → SupplierInvoiceStatus
settled_status full status =
    if full
    then SupplierInvoiceStatus.paid
    else if is_approved status
    then SupplierInvoiceStatus.partially_paid
    else status

abbrev reversed_status : SupplierInvoiceStatus → Bool → SupplierInvoiceStatus
reversed_status status empty =
    if is_part_paid (back_from_paid status) && empty
    then SupplierInvoiceStatus.approved
    else back_from_paid status

status_back :
    (full empty : Bool) (status : SupplierInvoiceStatus)
    → is_payable status ≡ true
    → is_approved status ≡ empty
    → reversed_status (settled_status full status) empty ≡ status
status_back full empty status payable untouched = grind arith

pub settle_form :
    (now : ℕ) (invoice : SupplierInvoice) (amount : ℤ)
    → let due = max_ℤ zero_ℤ (invoice.balance_due -ℤ amount) in
      let full = eq_ℤ due zero_ℤ in
      settle_invoice now invoice amount ≡ record invoice {
        amount_paid = invoice.amount_paid +ℤ amount;
        balance_due = due;
        status = settled_status full invoice.status;
        paid_at = if full then or_now now invoice.paid_at else invoice.paid_at;
      }
unfolding settle_invoice
settle_form now invoice amount =
    elim (Bool-cases (eq_ℤ (max_ℤ zero_ℤ (invoice.balance_due -ℤ amount)) zero_ℤ)) [
      | inl full ↦ rw full refl
      | inr part ↦ elim (Bool-cases (is_approved invoice.status)) [
        | inl first ↦ rw (part, first) refl
        | inr later ↦ rw (part, later) refl
      ]
    ]

reverse_form :
    (row : SupplierInvoice) (amount : ℤ)
    → ltb_ℤ zero_ℤ (row.balance_due +ℤ amount) ≡ true
    → reverse_settlement row amount ≡ record row {
      amount_paid = row.amount_paid -ℤ amount;
      balance_due = row.balance_due +ℤ amount;
      status = reversed_status row.status (eq_ℤ (row.amount_paid -ℤ amount) zero_ℤ);
      paid_at = none;
    }
unfolding reverse_settlement
reverse_form row amount h = rw h refl

-- The reversal of a settlement by a positive amount that is due gives an open invoice back, without a
-- date of payment.
pub reverse_settlement_undoes :
    (now : ℕ) (invoice : SupplierInvoice) (amount : ℤ)
    → IsOpen invoice
    → ltb_ℤ zero_ℤ amount ≡ true
    → amount ≤ℤ invoice.balance_due
    → reverse_settlement (settle_invoice now invoice amount) amount
      ≡ record invoice { paid_at = none }
reverse_settlement_undoes now invoice amount o positive fits =
    let due = max_ℤ zero_ℤ (invoice.balance_due -ℤ amount) in
    let full = eq_ℤ due zero_ℤ in
    let row : SupplierInvoice = record invoice {
      amount_paid = invoice.amount_paid +ℤ amount;
      balance_due = due;
      status = settled_status full invoice.status;
      paid_at = if full then or_now now invoice.paid_at else invoice.paid_at;
    } in
    let left = same_paid invoice.amount_paid amount in
    let status =
      ap (λ a. reversed_status (settled_status full invoice.status) (eq_ℤ a zero_ℤ)) left
      ∙ status_back full (eq_ℤ invoice.amount_paid zero_ℤ) invoice.status o.payable o.untouched in
    ap (λ x. reverse_settlement x amount) (settle_form now invoice amount)
    ∙ reverse_form row amount (owing invoice.balance_due amount positive fits)
    ∙ (λ k. record invoice {
      amount_paid = left k;
      balance_due = same_due invoice.balance_due amount fits k;
      status = status k;
      paid_at = none;
    })
