-- ===== src/Payables/Settling.antt =====
-- What a recorded payment (services/supplier_payment_service.py) leaves when it settles its invoice.
use rezorpay_pro.Common.{
  ℕ, zero_ℤ, true, false, not, ◌&&◌, some, ◌∷◌, ◌≡◌, ◌≤ℤ◌, refl, sym, ap, ◌∙◌, subst, lookup,
  lookup-put_self, nat_eq, ltb_ℤ, leb_ℤ, if◌then◌else◌, ok, raise_if-eq-ok, >>=-eq-ok, ok_injective,
  arith,
}
use rezorpay_pro.Receivable.{is_pdc}
use rezorpay_pro.Payments.Record.{key_row}
use rezorpay_pro.Payables.{
  SupplierInvoice, SupplierPayment, PayableStore, settle_invoice, settle, emit_event,
}
use rezorpay_pro.Payables.Record.{
  SupplierRequest, is_payable, has_no_date, is_there, insert_supplier_payment, supplier_payment_of,
  add_supplier_payment,
}
use rezorpay_pro.Payables.Recorded.{insert-eq-ok}

-- What a payment that is not a cheque leaves, seen from the store behind it.
pub record Settled (now workspace_id i id user_id : ℕ) (invoice : SupplierInvoice)
    (q : SupplierPayment) (s' : PayableStore) : Type 0 where
  pub stored : lookup i s'.invoices ≡ some (settle_invoice now invoice q.amount)
  pub recorded : lookup id s'.payments ≡ some q
  pub positive : ltb_ℤ zero_ℤ q.amount ≡ true
  pub fits : q.amount ≤ℤ invoice.balance_due

settle-Settled :
    (now workspace_id i id user_id : ℕ) (invoice : SupplierInvoice) (q : SupplierPayment)
    (u : PayableStore)
    → lookup id u.payments ≡ some q
    → ltb_ℤ zero_ℤ q.amount ≡ true
    → q.amount ≤ℤ invoice.balance_due
    → Settled now workspace_id i id user_id invoice q
        (settle now workspace_id i invoice q.amount user_id u)
unfolding settle emit_event
settle-Settled now workspace_id i id user_id invoice q u there positive fits = record {
  stored = lookup-put_self i (settle_invoice now invoice q.amount) u.invoices;
  recorded = there;
  positive = positive;
  fits = fits;
}

insert_positive :
    (id : ℕ) (p : SupplierPayment) (s t : PayableStore)
    → insert_supplier_payment id p s ≡ ok t
    → ltb_ℤ zero_ℤ p.amount ≡ true
unfolding insert_supplier_payment
insert_positive id p s t h =
    let (free, h₁) = raise_if-eq-ok (is_there (lookup id s.payments)) _ _ h in
    let (positive, h₂) = raise_if-eq-ok (leb_ℤ p.amount zero_ℤ) _ _ h₁ in ground arith

pub added-Settled :
    (now workspace_id i user_id key id : ℕ) (request : SupplierRequest) (s s' : PayableStore)
    (new_id : ℕ) (invoice : SupplierInvoice)
    → add_supplier_payment now workspace_id i invoice user_id key id request s ≡ ok (new_id, s')
    → is_pdc request.payment_method ≡ false
    → (id ≡ new_id)
      × Settled now workspace_id i id user_id invoice
          (supplier_payment_of now workspace_id i invoice user_id request)
          s'
unfolding add_supplier_payment
added-Settled now workspace_id i user_id key id request s s' new_id invoice h plain =
    let q = supplier_payment_of now workspace_id i invoice user_id request in
    let (live, h₁) = raise_if-eq-ok (not (is_payable invoice.status)) _ _ h in
    let (fits, h₂) = raise_if-eq-ok (ltb_ℤ invoice.balance_due request.amount) _ _ h₁ in
    let (dated, h₃) =
      raise_if-eq-ok (is_pdc request.payment_method && has_no_date request.pdc_date) _ _ h₂ in
    let (t, stored, h₄) = >>=-eq-ok (insert_supplier_payment id q s) _ h₃ in
    let (absent, e) = insert-eq-ok id q s t stored in
    let u : PayableStore = record t {
      idempotency_keys = key_row now workspace_id key id ∷ t.idempotency_keys;
    } in
    let there =
      ap (λ (x : PayableStore). lookup id x.payments) (sym e) ∙ lookup-put_self id q s.payments in
    (
      ap (λ x. x.0) (ok_injective h₄),
      last q t u there (insert_positive id q s t stored) (ground arith) refl
          (ap (λ x. x.1) (ok_injective h₄)),
    )
  where
    last :
        (q : SupplierPayment) (t u : PayableStore)
        → lookup id u.payments ≡ some q
        → ltb_ℤ zero_ℤ q.amount ≡ true
        → q.amount ≤ℤ invoice.balance_due
        → request.amount ≡ q.amount
        → (if not (is_pdc request.payment_method)
            then settle now workspace_id i invoice request.amount user_id u
            else u)
          ≡ s'
        → Settled now workspace_id i id user_id invoice q s'
    last q t u there positive fits amount h =
        subst (Settled now workspace_id i id user_id invoice q)
          (ap (λ a. settle now workspace_id i invoice a user_id u) (sym amount) ∙ rw plain at h)
          (settle-Settled now workspace_id i id user_id invoice q u there positive fits)
