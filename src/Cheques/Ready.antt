-- ===== src/Cheques/Ready.antt =====
-- What the calls of services/pdc_service.py find before they look at the cheque.
use rezorpay_pro.Common.{
  ℕ, true, not, none, some, ◌≡◌, ◌∙◌, subst, lookup, nat_eq, ◌==◌, if◌then◌else◌, ok,
  or_raise-eq-ok, raise_if-eq-ok, ok_injective, inl, inr, Option-cases, arith,
}
use rezorpay_pro.Stock.Ledger.{User, is_manager}
use rezorpay_pro.Receivable.{Invoice, is_pdc, Payment, ReceivableStore}
use rezorpay_pro.Payments.{load_invoice}
use rezorpay_pro.Payments.Once.{load_invoice-some}
use rezorpay_pro.Cheques.{lock_payment, ready}

-- What `ready` found.
pub record IsReady (invoice_id payment_id : ℕ) (invoice : Invoice) (p : Payment)
    (s : ReceivableStore) : Type 0 where
  pub invoiced : lookup invoice_id s.invoices ≡ some invoice
  pub recorded : lookup payment_id s.payments ≡ some p
  pub linked : p.invoice_id ≡ invoice_id
  pub cheque : is_pdc p.payment_method ≡ true

lock_payment-some :
    (invoice_id id : ℕ) (s : ReceivableStore) (p : Payment)
    → lock_payment invoice_id id s ≡ some p
    → (lookup id s.payments ≡ some p) × (p.invoice_id ≡ invoice_id)
unfolding lock_payment
lock_payment-some invoice_id id s p h = elim (Option-cases (lookup id s.payments)) [
  | inl absent ↦ let bad : none ≡ some p = rw (absent, lock_payment) at h in cc
  | inr (found, e) ↦
      let (same, linked) = kept found (rw (e, lock_payment) at h) in (e ∙ same, linked)
]
  where
    kept :
        (found : Payment)
        → (if found.invoice_id == invoice_id then some found else none) ≡ some p
        → (some found ≡ some p) × (p.invoice_id ≡ invoice_id)
    kept found h = ground arith

pub ready-IsReady :
    (workspace_id invoice_id payment_id : ℕ) (user : User) (s : ReceivableStore) (invoice : Invoice)
    (p : Payment)
    → ready workspace_id invoice_id payment_id user s ≡ ok (invoice, p)
    → IsReady invoice_id payment_id invoice p s
unfolding ready
ready-IsReady workspace_id invoice_id payment_id user s invoice p h =
    let (i, loaded, h₁) = or_raise-eq-ok (load_invoice workspace_id invoice_id s) _ _ h in
    let (q, locked, h₂) = or_raise-eq-ok (lock_payment invoice_id payment_id s) _ _ h₁ in
    let (manager, h₃) = raise_if-eq-ok (not (is_manager user.role)) _ _ h₂ in
    let (cheque, h₄) = raise_if-eq-ok (not (is_pdc q.payment_method)) _ _ h₃ in
    let found = load_invoice-some workspace_id invoice_id s i loaded in
    let (recorded, linked) = lock_payment-some invoice_id payment_id s q locked in
    subst (λ x. IsReady invoice_id payment_id x.0 x.1 s) (ok_injective h₄)
      (record { invoiced = found; recorded = recorded; linked = linked; cheque = ground arith })
