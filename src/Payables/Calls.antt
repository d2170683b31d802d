-- ===== src/Payables/Calls.antt =====
-- The calls of services/supplier_payment_service.py, supplier_pdc_service.py and
-- supplier_payment_reversal_service.py that write, together.
use rezorpay_pro.Common.{
  ℕ, ℤ, zero_ℤ, true, false, not, ◌&&◌, ◌||◌, none, some, ◌≡◌, ◌+ℤ◌, refl, ◌∙◌, subst, lookup,
  nat_eq, ◌==◌, ltb_ℤ, if◌then◌else◌, Result, ok, ◌>>=◌, or_raise-eq-ok, raise_if-eq-ok, >>=-eq-ok,
  ok_injective, inl, inr, Bool-cases, Option-cases, int_laws, arith,
}
use rezorpay_pro.Stock.Ledger.{User, is_manager}
use rezorpay_pro.Receivable.{is_pdc, PaymentStatus, PdcStatus, is_success}
use rezorpay_pro.Credit.{utc_today}
use rezorpay_pro.Cheques.{is_at, is_pending, is_early}
use rezorpay_pro.Payables.{
  SupplierInvoice, SupplierPayment, PayableStore, lock_supplier_invoice, lock_supplier_payment,
}
use rezorpay_pro.Payables.Issued.{
  is_cleared, supplier_ready, stamp, supplier_deposit, supplier_clear, supplier_bounce,
  supplier_return_cheque,
}
use rezorpay_pro.Payables.Book.{Booked, column, shift_zero, paid_for, unpaid-Booked}
use rezorpay_pro.Payables.Served.{settle-Booked}

-- Payments and stored amounts have moved alike.
abbrev pub Kept : PayableStore → PayableStore → Type 0
Kept s s' = (delta : ℕ → ℤ) × Booked delta s s'

plus_zero : (a : ℤ) → a ≡ a +ℤ zero_ℤ
plus_zero a = grind int_laws

pub same-Kept : (s s' : PayableStore) → s ≡ s' → Kept s s'
same-Kept s s' e = subst (Kept s) e (
  λ j. zero_ℤ,
  record {
    paid = λ j. plus_zero (paid_for j s.payments);
    stored = λ j. shift_zero (column (lookup j s.invoices));
  },
)

pub lock_supplier_invoice-some :
    (workspace_id id : ℕ) (s : PayableStore) (invoice : SupplierInvoice)
    → lock_supplier_invoice workspace_id id s ≡ some invoice
    → lookup id s.invoices ≡ some invoice
unfolding lock_supplier_invoice
lock_supplier_invoice-some workspace_id id s invoice h =
    elim (Option-cases (lookup id s.invoices)) [
      | inl absent ↦ let bad : none ≡ some invoice = rw (absent, lock_supplier_invoice) at h in cc
      | inr (found, e) ↦ e ∙ kept found (rw (e, lock_supplier_invoice) at h)
    ]
  where
    kept :
        (found : SupplierInvoice)
        → (if found.workspace_id == workspace_id then some found else none) ≡ some invoice
        → some found ≡ some invoice
    kept found h = ground arith

pub lock_supplier_payment-some :
    (invoice_id id : ℕ) (s : PayableStore) (p : SupplierPayment)
    → lock_supplier_payment invoice_id id s ≡ some p
    → (lookup id s.payments ≡ some p) × (p.supplier_invoice_id ≡ invoice_id)
unfolding lock_supplier_payment
lock_supplier_payment-some invoice_id id s p h = elim (Option-cases (lookup id s.payments)) [
  | inl absent ↦ let bad : none ≡ some p = rw (absent, lock_supplier_payment) at h in cc
  | inr (found, e) ↦
      let (same, linked) = kept found (rw (e, lock_supplier_payment) at h) in (e ∙ same, linked)
]
  where
    kept :
        (found : SupplierPayment)
        → (if found.supplier_invoice_id == invoice_id then some found else none) ≡ some p
        → (some found ≡ some p) × (p.supplier_invoice_id ≡ invoice_id)
    kept found h = ground arith

-- What a call on a payment found.
pub record Found (i id : ℕ) (invoice : SupplierInvoice) (p : SupplierPayment) (s : PayableStore)
    : Type 0 where
  pub invoiced : lookup i s.invoices ≡ some invoice
  pub recorded : lookup id s.payments ≡ some p
  pub linked : p.supplier_invoice_id ≡ i

module _ (now workspace_id i id : ℕ) (user : User) (s s' : PayableStore) where
  from_ready :
      (body : SupplierInvoice × SupplierPayment → Result PayableStore)
      → ((invoice : SupplierInvoice) (p : SupplierPayment)
          → Found i id invoice p s
          → is_pdc p.payment_method ≡ true
          → body (invoice, p) ≡ ok s'
          → Kept s s')
      → (supplier_ready workspace_id i id user s >>= body) ≡ ok s'
      → Kept s s'
  unfolding supplier_ready
  from_ready body each h =
      let ((invoice, p), ready, h₁) = >>=-eq-ok (supplier_ready workspace_id i id user s) body h in
      let (inv, locked, r₁) = or_raise-eq-ok (lock_supplier_invoice workspace_id i s) _ _ ready in
      let (q, held, r₂) = or_raise-eq-ok (lock_supplier_payment i id s) _ _ r₁ in
      let (manager, r₃) = raise_if-eq-ok (not (is_manager user.role)) _ _ r₂ in
      let (cheque, r₄) = raise_if-eq-ok (not (is_pdc q.payment_method)) _ _ r₃ in
      let found = lock_supplier_invoice-some workspace_id i s inv locked in
      let (recorded, linked) = lock_supplier_payment-some i id s q held in
      let same = ok_injective r₄ in
      each invoice p
        (subst (λ (x : SupplierInvoice × SupplierPayment). Found i id x.0 x.1 s) same
          (record { invoiced = found; recorded = recorded; linked = linked }))
        (subst (λ (x : SupplierInvoice × SupplierPayment). is_pdc x.1.payment_method ≡ true) same
          (ground arith))
        h₁

  not_paid :
      (p : SupplierPayment)
      → is_pdc p.payment_method ≡ true
      → is_cleared p ≡ false
      → is_success p.status ≡ false
  not_paid p cheque h = ground arith

  -- A step that writes an uncounted status over an uncounted one.
  stamped :
      (p : SupplierPayment) (status : PaymentStatus) (m : PdcStatus)
      → lookup id s.payments ≡ some p
      → is_success p.status ≡ false
      → is_success status ≡ false
      → ok (stamp id p status m s) ≡ ok s'
      → Kept s s'
  stamped p status m found before after h = subst (Kept s) (ok_injective h) (
    λ j. zero_ℤ,
    unpaid-Booked id (record p { status = status; pdc_status = some m }) p s found before after,
  )

  pub supplier_bounce-Kept : supplier_bounce workspace_id i id user s ≡ ok s' → Kept s s'
  unfolding supplier_bounce
  supplier_bounce-Kept h =
      from_ready _
        (λ invoice p r cheque h₁. elim (Bool-cases (is_at PdcStatus.bounced p.pdc_status)) [
          | inl same ↦ same-Kept s s' (ok_injective (rw same at h₁))
          | inr other ↦
              let h₂ = rw other at h₁ in
              let (still, h₃) = raise_if-eq-ok (is_cleared p) _ _ h₂ in
              let (here, h₄) =
                raise_if-eq-ok (not (is_at PdcStatus.deposited p.pdc_status)) _ _ h₃ in
              stamped p PaymentStatus.failed PdcStatus.bounced r.recorded (not_paid p cheque still)
                refl h₄
        ])
        h

  pub supplier_return_cheque-Kept :
      supplier_return_cheque workspace_id i id user s ≡ ok s' → Kept s s'
  unfolding supplier_return_cheque
  supplier_return_cheque-Kept h =
      from_ready _
        (λ invoice p r cheque h₁. elim (Bool-cases (is_at PdcStatus.returned p.pdc_status)) [
          | inl same ↦ same-Kept s s' (ok_injective (rw same at h₁))
          | inr other ↦
              let h₂ = rw other at h₁ in
              let (still, h₃) = raise_if-eq-ok (is_cleared p) _ _ h₂ in
              let (here, h₄) =
                raise_if-eq-ok
                  (not (is_at PdcStatus.received p.pdc_status) || not (is_pending p.status)) _ _
                  h₃ in
              stamped p PaymentStatus.cancelled PdcStatus.returned r.recorded
                (not_paid p cheque still) refl h₄
        ])
        h

  pub supplier_deposit-Kept : supplier_deposit now workspace_id i id user s ≡ ok s' → Kept s s'
  unfolding supplier_deposit
  supplier_deposit-Kept h =
      from_ready _
        (λ invoice p r cheque h₁.
          elim (Bool-cases (is_at PdcStatus.deposited p.pdc_status && is_pending p.status)) [
            | inl same ↦ same-Kept s s' (ok_injective (rw same at h₁))
            | inr other ↦
                let h₂ = rw other at h₁ in
                let (still, h₃) = raise_if-eq-ok (is_cleared p) _ _ h₂ in
                let (here, h₄) =
                  raise_if-eq-ok
                    (not (is_at PdcStatus.received p.pdc_status) || not (is_pending p.status)) _ _
                    h₃ in
                let (due, h₅) = raise_if-eq-ok (is_early p.pdc_date (utc_today now)) _ _ h₄ in
                let before = not_paid p cheque still in
                stamped p p.status PdcStatus.deposited r.recorded before before h₅
          ])
        h

  pub supplier_clear-Kept : supplier_clear now workspace_id i id user s ≡ ok s' → Kept s s'
  unfolding supplier_clear
  supplier_clear-Kept h =
      from_ready _
        (λ invoice p r cheque h₁. elim (Bool-cases (is_cleared p)) [
          | inl same ↦ same-Kept s s' (ok_injective (rw same at h₁))
          | inr still ↦
              let h₂ = rw still at h₁ in
              let (here, h₃) =
                raise_if-eq-ok (not (is_at PdcStatus.deposited p.pdc_status)) _ _ h₂ in
              let (fits, h₄) = raise_if-eq-ok (ltb_ℤ invoice.balance_due p.amount) _ _ h₃ in
              subst (Kept s) (ok_injective h₄) (
                _,
                settle-Booked now workspace_id i id user.id invoice p
                    (record p {
                      status = PaymentStatus.success;
                      pdc_status = some PdcStatus.cleared;
                    })
                    s r.invoiced r.recorded (not_paid p cheque still) refl r.linked,
              )
        ])
        h
