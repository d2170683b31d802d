-- ===== src/Payments/Cap.antt =====
-- What `record_payment` (services/payment_service.py) does to what is open of the invoices.
use rezorpay_pro.Common.{
  ℕ, zero_ℤ, false, Option, none, some, ◌∷◌, ◌≡◌, ◌≤ℤ◌, ltb_ℤ, refl, sym, ap, ◌∙◌, subst, lookup,
  put, nat_eq, ok, >>=-eq-ok, raise_if-eq-ok, ok_injective, inl, inr, Option-cases, arith,
}
use rezorpay_pro.Receivable.{
  Invoice, Payment, PaymentStatus, PdcStatus, ReceivableStore, balance_due,
}
use rezorpay_pro.Receivable.Restated.{terms, and_then, Restated, Restated-refl, Restated-trans}
use rezorpay_pro.Credit.Restates.{evaluate-Restated}
use rezorpay_pro.Invoicing.{update_status_from_payments, log_event}
use rezorpay_pro.Invoicing.Settle.{update_status-Restated}
use rezorpay_pro.Payments.{
  PaymentRequest, insert_status, is_present, insert_payment, is_gateway_taken,
}
use rezorpay_pro.Payments.Record.{
  key_row, payment_of, evaluate_parties, settle_payment, add_payment,
}

pub evaluate_parties-Restated :
    (now workspace_id : ℕ) (invoice : Invoice) (user_id : ℕ) (s : ReceivableStore)
    → Restated s (evaluate_parties now workspace_id invoice user_id s)
unfolding evaluate_parties
evaluate_parties-Restated now workspace_id invoice user_id s =
    elim (Option-cases (lookup workspace_id s.workspaces)) [
      | inl absent ↦ rw (evaluate_parties, absent) (Restated-refl s)
      | inr (workspace, found) ↦ elim (Option-cases (lookup invoice.client_id s.clients)) [
        | inl unknown ↦ rw (evaluate_parties, found, unknown) (Restated-refl s)
        | inr (client, known) ↦
            rw (evaluate_parties, found, known)
              (evaluate-Restated now invoice.client_id client workspace_id workspace (some user_id)
                _ s known)
      ]
    ]

pub settle_payment-Restated :
    (now workspace_id invoice_id : ℕ) (invoice : Invoice) (user_id : ℕ) (s : ReceivableStore)
    → lookup invoice_id s.invoices ≡ some invoice
    → Restated s (settle_payment now workspace_id invoice_id invoice user_id s)
unfolding settle_payment log_event
settle_payment-Restated now workspace_id invoice_id invoice user_id s found =
    let (changed, updated, t) = update_status_from_payments now invoice_id invoice user_id s in
    let r =
      Restated-trans s t _ (update_status-Restated now invoice_id invoice user_id s found)
        (evaluate_parties-Restated now workspace_id updated user_id t) in
    record {
      payments = r.payments;
      keys = r.keys;
      invoices = r.invoices;
      workspaces = r.workspaces;
      clients = r.clients;
      invoice_events = and_then r.invoice_events;
      credit_events = r.credit_events;
    }

-- A new payment `p` stands in `s'` under `id`, and what else changed is a matter of statuses.
pub record Inserted (id : ℕ) (p : Payment) (s s' : ReceivableStore) : Type 0 where
  pub absent : lookup id s.payments ≡ none
  pub nonneg : zero_ℤ ≤ℤ p.amount
  pub inserted : s'.payments ≡ put id p s.payments
  pub invoices : (j : ℕ) → terms (lookup j s'.invoices) ≡ terms (lookup j s.invoices)

free_id : (o : Option Payment) → is_present o ≡ false → o ≡ none
free_id none h = refl
free_id (some p) h = cc

insert_payment-eq-ok :
    (id : ℕ) (p : Payment) (s s' : ReceivableStore)
    → insert_payment id p s ≡ ok s'
    → (lookup id s.payments ≡ none)
      × (zero_ℤ ≤ℤ p.amount)
      × (record s { payments = put id p s.payments } ≡ s')
unfolding insert_payment
insert_payment-eq-ok id p s s' h =
    let (free, h₁) = raise_if-eq-ok (is_present (lookup id s.payments)) _ _ h in
    let (nn, h₂) = raise_if-eq-ok (ltb_ℤ p.amount zero_ℤ) _ _ h₁ in
    let (_, h₃) = raise_if-eq-ok (is_gateway_taken p.gateway_transaction_id s.payments) _ _ h₂ in
    (free_id (lookup id s.payments) free, ground arith, ok_injective h₃)

-- What `add_payment` found out and did.
pub record Added (now workspace_id invoice_id : ℕ) (invoice : Invoice) (key payment_id : ℕ)
    (request : PaymentRequest) (s s' : ReceivableStore) : Type 0 where
  pub columns : PaymentStatus × Option ℕ × Option PdcStatus
  pub typed : insert_status request.payment_method request.pdc_date ≡ ok columns
  pub fits : request.amount ≤ℤ balance_due invoice_id invoice s.payments
  pub inserted : Inserted payment_id (payment_of now invoice_id request columns) s s'
  pub keyed : s'.idempotency_keys ≡ key_row now workspace_id key payment_id ∷ s.idempotency_keys

pub add_payment-Added :
    (now workspace_id invoice_id : ℕ) (invoice : Invoice) (user_id key payment_id : ℕ)
    (request : PaymentRequest) (s s' : ReceivableStore) (id : ℕ)
    → add_payment now workspace_id invoice_id invoice user_id key payment_id request s ≡ ok (id, s')
    → lookup invoice_id s.invoices ≡ some invoice
    → (id ≡ payment_id) × Added now workspace_id invoice_id invoice key payment_id request s s'
unfolding add_payment
add_payment-Added now workspace_id invoice_id invoice user_id key payment_id request s s' id h
      found =
    let (fits, h₁) =
      raise_if-eq-ok (ltb_ℤ (balance_due invoice_id invoice s.payments) request.amount) _ _ h in
    let (columns, typed, h₂) =
      >>=-eq-ok (insert_status request.payment_method request.pdc_date) _ h₁ in
    let p = payment_of now invoice_id request columns in
    let (t, stored, h₃) = >>=-eq-ok (insert_payment payment_id p s) _ h₂ in
    let (absent, nonneg, e) = insert_payment-eq-ok payment_id p s t stored in
    let u : ReceivableStore = record t {
      idempotency_keys = key_row now workspace_id key payment_id ∷ t.idempotency_keys;
    } in
    let r =
      settle_payment-Restated now workspace_id invoice_id invoice user_id u
        (subst (λ (x : ReceivableStore). lookup invoice_id x.invoices ≡ some invoice) e found) in
    (
      sym (ap (λ x. x.0) (ok_injective h₃)),
      subst
          (λ (x : ℕ × ReceivableStore).
            Added now workspace_id invoice_id invoice key payment_id request s x.1)
          (ok_injective h₃)
          (record {
            columns = columns;
            typed = typed;
            fits = ground arith;
            inserted = record {
              absent = absent;
              nonneg = nonneg;
              inserted = r.payments ∙ sym (ap (λ (x : ReceivableStore). x.payments) e);
              invoices = λ j.
                  r.invoices j ∙ sym (ap (λ (x : ReceivableStore). terms (lookup j x.invoices)) e);
            };
            keyed =
                r.keys
                ∙ ap
                    (λ (x : ReceivableStore).
                      key_row now workspace_id key payment_id ∷ x.idempotency_keys)
                    (sym e);
          }),
    )
