-- ===== src/Payables/Undone.antt =====
-- A payment to a supplier is recorded and taken back.
use rezorpay_pro.Common.{
  ℕ, ℤ, zero_ℤ, Bool, true, false, none, some, ◌≡◌, ◌≤ℤ◌, ◌+ℤ◌, ◌-ℤ◌, refl, ap, ◌∙◌, subst, lookup,
  lookup-put_self, nat_eq, ltb_ℤ, eq_ℤ, max_ℤ, if◌then◌else◌, ok, inl, inr, int_laws, arith, ◌==◌,
  ==_iff, Option-cases,
}
use rezorpay_pro.Stock.Ledger.{User, is_manager}
use rezorpay_pro.Receivable.{is_pdc, PaymentStatus}
use rezorpay_pro.Payments.{find_key}
use rezorpay_pro.Payables.{
  SupplierInvoice, SupplierInvoiceStatus, SupplierPayment, PayableStore, settle_invoice,
  reverse_settlement, emit_event, lock_supplier_invoice, lock_supplier_payment,
}
use rezorpay_pro.Payables.Record.{
  SupplierRequest, is_payable, supplier_payment_of, add_supplier_payment, record_supplier_payment,
}
use rezorpay_pro.Payables.Reverse.{reverse_payment, unsettle, is_reversible}
use rezorpay_pro.Payables.Undo.{IsOpen, settle_form, settled_status, reverse_settlement_undoes}
use rezorpay_pro.Payables.Settling.{Settled, added-Settled}

reverse_payment_returns :
    (workspace_id i id : ℕ) (user : User) (s : PayableStore) (invoice : SupplierInvoice)
    (p : SupplierPayment)
    → lookup i s.invoices ≡ some invoice
    → invoice.workspace_id ≡ workspace_id
    → lookup id s.payments ≡ some p
    → p.supplier_invoice_id ≡ i
    → is_manager user.role ≡ true
    → is_pdc p.payment_method ≡ false
    → p.status ≡ PaymentStatus.success
    → is_reversible invoice.status ≡ true
    → ltb_ℤ invoice.amount_paid p.amount ≡ false
    → reverse_payment workspace_id i id user s ≡ ok (unsettle workspace_id i invoice id p user.id s)
unfolding reverse_payment
reverse_payment_returns workspace_id i id user s invoice p found own there linked manager plain paid
      reversible fits =
    rw
      (
        lock_supplier_invoice,
        found,
        (==_iff invoice.workspace_id workspace_id).1 own,
        lock_supplier_payment,
        there,
        (==_iff p.supplier_invoice_id i).1 linked,
        manager,
        plain,
        paid,
        reversible,
        fits,
      )
      refl

lock-own :
    (workspace_id id : ℕ) (s : PayableStore) (invoice : SupplierInvoice)
    → lock_supplier_invoice workspace_id id s ≡ some invoice
    → invoice.workspace_id ≡ workspace_id
unfolding lock_supplier_invoice
lock-own workspace_id id s invoice h = elim (Option-cases (lookup id s.invoices)) [
  | inl absent ↦ let bad : none ≡ some invoice = rw (absent, lock_supplier_invoice) at h in cc
  | inr (found, e) ↦ own found (rw (e, lock_supplier_invoice) at h)
]
  where
    own :
        (found : SupplierInvoice)
        → (if found.workspace_id == workspace_id then some found else none) ≡ some invoice
        → invoice.workspace_id ≡ workspace_id
    own found h = ground arith

settled_reversible :
    (full : Bool) (status : SupplierInvoiceStatus)
    → is_payable status ≡ true
    → is_reversible (settled_status full status) ≡ true
settled_reversible full status h = grind arith

enough : (a b : ℤ) → zero_ℤ ≤ℤ a → ltb_ℤ (a +ℤ b) b ≡ false
enough a b h = grind int_laws

written_back :
    (workspace_id i id user_id : ℕ) (row : SupplierInvoice) (p : SupplierPayment) (s : PayableStore)
    → lookup i (unsettle workspace_id i row id p user_id s).invoices
      ≡ some (reverse_settlement row p.amount)
unfolding unsettle emit_event
written_back workspace_id i id user_id row p s =
    lookup-put_self i (reverse_settlement row p.amount) s.invoices

Settled-reversal :
    (now workspace_id i id user_id : ℕ) (invoice : SupplierInvoice) (q : SupplierPayment)
    (s' : PayableStore) (user : User)
    → Settled now workspace_id i id user_id invoice q s'
    → invoice.workspace_id ≡ workspace_id
    → q.supplier_invoice_id ≡ i
    → is_pdc q.payment_method ≡ false
    → q.status ≡ PaymentStatus.success
    → IsOpen invoice
    → is_manager user.role ≡ true
    → (s'' : PayableStore) × (reverse_payment workspace_id i id user s' ≡ ok s'')
      × (lookup i s''.invoices ≡ some (record invoice { paid_at = none }))
Settled-reversal now workspace_id i id user_id invoice q s' user r own linked plain paid o manager =
    let row = settle_invoice now invoice q.amount in
    let full = eq_ℤ (max_ℤ zero_ℤ (invoice.balance_due -ℤ q.amount)) zero_ℤ in
    let form = settle_form now invoice q.amount in
    (
      unsettle workspace_id i row id q user.id s',
      reverse_payment_returns workspace_id i id user s' row q r.stored
          (ap (λ (x : SupplierInvoice). x.workspace_id) form ∙ own) r.recorded linked manager plain
          paid
          (ap (λ (x : SupplierInvoice). is_reversible x.status) form
            ∙ settled_reversible full invoice.status o.payable)
          (ap (λ (x : SupplierInvoice). ltb_ℤ x.amount_paid q.amount) form
            ∙ enough invoice.amount_paid q.amount o.nonneg),
      written_back workspace_id i id user.id row q s'
          ∙ ap some (reverse_settlement_undoes now invoice q.amount o r.positive r.fits),
    )

-- A payment to a supplier that is not a post-dated cheque, recorded under a new key for an open invoice
-- whose status fits what is paid, can be taken back at once by an owner or admin: the reversal returns,
-- and the invoice is what it was before the payment, without a date of payment.
pub reverse_payment_undoes :
    (now workspace_id i user_id key id : ℕ) (request : SupplierRequest) (s s' : PayableStore)
    (new_id : ℕ) (invoice : SupplierInvoice) (user : User)
    → record_supplier_payment now workspace_id i user_id key id request s ≡ ok (new_id, s')
    → lock_supplier_invoice workspace_id i s ≡ some invoice
    → find_key workspace_id key s.idempotency_keys ≡ none
    → is_pdc request.payment_method ≡ false
    → IsOpen invoice
    → is_manager user.role ≡ true
    → (s'' : PayableStore) × (reverse_payment workspace_id i new_id user s' ≡ ok s'')
      × (lookup i s''.invoices ≡ some (record invoice { paid_at = none }))
unfolding record_supplier_payment
reverse_payment_undoes now workspace_id i user_id key id request s s' new_id invoice user h locked
      fresh plain o manager =
    let q = supplier_payment_of now workspace_id i invoice user_id request in
    let h₁ : add_supplier_payment now workspace_id i invoice user_id key id request s
        ≡ ok (new_id, s') =
      rw (locked, fresh) at h in
    let (same, r) =
      added-Settled now workspace_id i user_id key id request s s' new_id invoice h₁ plain in
    subst
      (λ x.
        (s'' : PayableStore) × (reverse_payment workspace_id i x user s' ≡ ok s'')
        × (lookup i s''.invoices ≡ some (record invoice { paid_at = none })))
      same
      (Settled-reversal now workspace_id i id user_id invoice q s' user r
        (lock-own workspace_id i s invoice locked) refl plain
        (ap (λ c. if c then PaymentStatus.pending else PaymentStatus.success) plain) o manager)
