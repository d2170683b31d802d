-- ===== src/Payments/Books.antt =====
-- The balances of the invoices around `record_payment` (services/payment_service.py).
use rezorpay_pro.Common.{
  ℕ, zero_ℤ, true, false, not, ◌&&◌, Option, none, some, List, ◌≡◌, ◌≤ℤ◌, ◌+ℤ◌, refl, sym, ap, ◌∙◌,
  subst, lookup, nat_eq, ◌==◌, if◌then◌else◌, ok, ok_injective, err_not_ok, inl, inr,
}
use rezorpay_pro.Receivable.{
  Invoice, ReceivableStore, amount_paid, is_success, IdempotencyKey, PaymentMethod, cash,
  bank_transfer, cheque, pdc, credit_card, is_pdc, PaymentStatus, PdcStatus,
}
use rezorpay_pro.Receivable.Restated.{due_at, raw_at}
use rezorpay_pro.Receivable.Balance.{amount_paid-insert}
use rezorpay_pro.Receivable.Paid.{IsCovered, Paid, due_at-paid, covered_step}
use rezorpay_pro.Payments.{PaymentRequest, insert_status}
use rezorpay_pro.Payments.Record.{payment_of, record_payment}
use rezorpay_pro.Payments.Cap.{Added}
use rezorpay_pro.Payments.Once.{is_live, record_payment-cases}

success_of :
    (m : PaymentMethod) (d : Option ℕ) (c : PaymentStatus × Option ℕ × Option PdcStatus)
    → insert_status m d ≡ ok c
    → is_success c.0 ≡ not (is_pdc m)
unfolding insert_status
success_of cash d c h = rw (← ok_injective h) refl
success_of bank_transfer d c h = rw (← ok_injective h) refl
success_of cheque d c h = rw (← ok_injective h) refl
success_of credit_card d c h = rw (← ok_injective h) refl
success_of pdc none c h = absurd (err_not_ok h)
success_of pdc (some date) c h = rw (← ok_injective h) refl

Added-Paid :
    (now workspace_id invoice_id : ℕ) (invoice : Invoice) (key payment_id : ℕ)
    (request : PaymentRequest) (ks : List IdempotencyKey) (s s' : ReceivableStore)
    → lookup invoice_id s.invoices ≡ some invoice
    → (a : Added now workspace_id invoice_id invoice key payment_id request
        (record s { idempotency_keys = ks })
        s')
    → Paid (payment_of now invoice_id request a.columns) s s'
Added-Paid now workspace_id invoice_id invoice key payment_id request ks s s' found a = record {
  nonneg = a.inserted.nonneg;
  fits = λ succeeds. rw found a.fits;
  paid = λ j.
      ap (amount_paid j) a.inserted.inserted
      ∙ amount_paid-insert j payment_id (payment_of now invoice_id request a.columns) s.payments
          a.inserted.absent;
  invoices = a.inserted.invoices;
}

module _ (now workspace_id invoice_id user_id key payment_id : ℕ) (request : PaymentRequest)
    (s s' : ReceivableStore) (id : ℕ)
    (h : record_payment now workspace_id invoice_id user_id key payment_id request s
      ≡ ok (id, s')) where
  -- `record_payment` never lets an invoice be paid more than it comes to: where that holds of every
  -- invoice before a call, it holds of every invoice after it.
  pub record_payment-IsCovered : IsCovered s → IsCovered s'
  record_payment-IsCovered c j =
      elim (record_payment-cases now workspace_id invoice_id user_id key payment_id request s s' id
        h) [
          | inl (live, e) ↦ subst (λ x. zero_ℤ ≤ℤ raw_at j x) e (c j)
          | inr (stale, (invoice, ks, found, same, a)) ↦
              covered_step (payment_of now invoice_id request a.columns) s s'
                (Added-Paid now workspace_id invoice_id invoice key payment_id request ks s s' found
                  a)
                j (c j)
        ]

  -- A call whose key is not live lowers what an invoice has open by what the new payment counts for it:
  -- by its amount if it is a payment of that invoice that was not taken as a post-dated cheque, and
  -- else by nothing.
  pub record_payment_balance :
      is_live now workspace_id key s ≡ false
      → (j : ℕ)
      → due_at j s'
          +ℤ (if (invoice_id == j) && not (is_pdc request.payment_method)
              then request.amount
              else zero_ℤ)
        ≡ due_at j s
  record_payment_balance dead j =
      elim (record_payment-cases now workspace_id invoice_id user_id key payment_id request s s' id
        h) [
          | inl (live, e) ↦ let bad : true ≡ false = sym live ∙ dead in cc
          | inr (stale, (invoice, ks, found, same, a)) ↦
              rw (← success_of request.payment_method request.pdc_date a.columns a.typed) (
                due_at-paid (payment_of now invoice_id request a.columns) s s'
                  (Added-Paid now workspace_id invoice_id invoice key payment_id request ks s s'
                    found a)
                  j)
        ]
