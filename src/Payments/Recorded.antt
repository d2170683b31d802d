-- ===== src/Payments/Recorded.antt =====
-- That `record_payment` (services/payment_service.py) returns, and the payment that it then recorded.
use rezorpay_pro.Common.{
  ℕ, zero_ℤ, Bool, true, false, not, ◌&&◌, Option, none, some, List, ◌∷◌, ◌≡◌, ◌≤ℤ◌, ◌+ℤ◌, ltb_ℤ,
  ltb, ◌+◌, ◌==◌, if◌then◌else◌, refl, sym, ap, ◌∙◌, lookup, put, lookup-put_self, lookup-put_ne,
  nat_eq, ok, ok_injective, err_not_ok, inl, inr, Option-cases, arith,
}
use rezorpay_pro.Receivable.{
  Invoice, PaymentMethod, cash, bank_transfer, cheque, pdc, credit_card, is_pdc, Payment,
  PaymentStatus, pending, success, PdcStatus, received, IdempotencyKey, ReceivableStore,
  balance_due,
}
use rezorpay_pro.Receivable.Restated.{terms, due_at}
use rezorpay_pro.Payments.{
  PaymentRequest, insert_status, load_invoice, find_key, delete_key, is_present, insert_payment,
  is_gateway_taken,
}
use rezorpay_pro.Payments.Record.{key_row, payment_of, add_payment, record_payment, settle_payment}
use rezorpay_pro.Payments.Once.{is_live, is_live_key, record_payment-cases}
use rezorpay_pro.Payments.Books.{record_payment_balance}
use rezorpay_pro.Payments.Retry.{find_key-first, own_key}

-- The store after a payment was recorded: its row, the other payments, its key with 48 hours to live,
-- the invoices but for their statuses, and what each has open.
pub record Recorded (now workspace_id invoice_id key payment_id : ℕ) (request : PaymentRequest)
    (s s' : ReceivableStore) : Type 0 where
  pub row : Payment
  pub stored : lookup payment_id s'.payments ≡ some row
  pub of_invoice : row.invoice_id ≡ invoice_id
  pub of_amount : row.amount ≡ request.amount
  pub of_method : row.payment_method ≡ request.payment_method
  pub of_status : row.status ≡ (if is_pdc request.payment_method then pending else success)
  pub of_cheque : row.pdc_status ≡ (if is_pdc request.payment_method then some received else none)
  pub others : (j : ℕ) → (payment_id == j) ≡ false → lookup j s'.payments ≡ lookup j s.payments
  pub own : IdempotencyKey
  pub keyed : find_key workspace_id key s'.idempotency_keys ≡ some own
  pub of_payment : own.payment_id ≡ payment_id
  pub expires : own.expires_at ≡ now + 172_800
  pub invoices : (j : ℕ) → terms (lookup j s'.invoices) ≡ terms (lookup j s.invoices)
  pub due :
      (j : ℕ)
      → due_at j s'
          +ℤ (if (invoice_id == j) && not (is_pdc request.payment_method)
              then request.amount
              else zero_ℤ)
        ≡ due_at j s

columns_of :
    (m : PaymentMethod) (d : Option ℕ) (c : PaymentStatus × Option ℕ × Option PdcStatus)
    → insert_status m d ≡ ok c
    → (c.0 ≡ (if is_pdc m then pending else success))
      × (c.2 ≡ (if is_pdc m then some received else none))
unfolding insert_status
columns_of cash d c h = rw (← ok_injective h) (refl, refl)
columns_of bank_transfer d c h = rw (← ok_injective h) (refl, refl)
columns_of cheque d c h = rw (← ok_injective h) (refl, refl)
columns_of credit_card d c h = rw (← ok_injective h) (refl, refl)
columns_of pdc none c h = absurd (err_not_ok h)
columns_of pdc (some date) c h = rw (← ok_injective h) (refl, refl)

-- A post-dated cheque has a date.
abbrev pub is_dated : PaymentMethod → Option ℕ → Bool
is_dated pdc none = false
is_dated _ date = true

insert_status_returns :
    (m : PaymentMethod) (d : Option ℕ)
    → is_dated m d ≡ true
    → (c : PaymentStatus × Option ℕ × Option PdcStatus) × (insert_status m d ≡ ok c)
unfolding insert_status
insert_status_returns cash d h = (_, refl)
insert_status_returns bank_transfer d h = (_, refl)
insert_status_returns cheque d h = (_, refl)
insert_status_returns credit_card d h = (_, refl)
insert_status_returns pdc none h = cc
insert_status_returns pdc (some date) h = (_, refl)

insert_payment_free :
    (id : ℕ) (p : Payment) (s : ReceivableStore)
    → lookup id s.payments ≡ none
    → ltb_ℤ p.amount zero_ℤ ≡ false
    → is_gateway_taken p.gateway_transaction_id s.payments ≡ false
    → insert_payment id p s ≡ ok (record s { payments = put id p s.payments })
unfolding insert_payment
insert_payment_free id p s absent nn free = rw (insert_payment, ap is_present absent, nn, free) refl

module _ (now workspace_id invoice_id user_id key payment_id : ℕ) (request : PaymentRequest)
    (s : ReceivableStore) where
  recorded :
      (s' : ReceivableStore) (id : ℕ)
      → record_payment now workspace_id invoice_id user_id key payment_id request s ≡ ok (id, s')
      → is_live now workspace_id key s ≡ false
      → (id ≡ payment_id) × Recorded now workspace_id invoice_id key payment_id request s s'
  recorded s' id h dead =
      elim (record_payment-cases now workspace_id invoice_id user_id key payment_id request s s' id
        h) [
          | inl (live, e) ↦ let bad : true ≡ false = sym live ∙ dead in cc
          | inr (stale, (invoice, ks, found, same, a)) ↦
              let p = payment_of now invoice_id request a.columns in
              let columns = columns_of request.payment_method request.pdc_date a.columns a.typed in
              let put_in = a.inserted.inserted in
              (
                same,
                record {
                  row = p;
                  stored = ap (lookup payment_id) put_in ∙ lookup-put_self payment_id p s.payments;
                  of_invoice = refl;
                  of_amount = refl;
                  of_method = refl;
                  of_status = columns.0;
                  of_cheque = columns.1;
                  others = λ j other.
                      ap (lookup j) put_in ∙ lookup-put_ne payment_id j p s.payments other;
                  own = key_row now workspace_id key payment_id;
                  keyed =
                      ap (find_key workspace_id key) a.keyed
                      ∙ find_key-first workspace_id key (key_row now workspace_id key payment_id) ks
                          (own_key now workspace_id key payment_id);
                  of_payment = refl;
                  expires = refl;
                  invoices = a.inserted.invoices;
                  due =
                      record_payment_balance now workspace_id invoice_id user_id key payment_id
                        request s s' id h dead;
                },
              )
        ]

  adds :
      (invoice : Invoice) (ks : List IdempotencyKey)
      → zero_ℤ ≤ℤ request.amount
      → request.amount ≤ℤ balance_due invoice_id invoice s.payments
      → is_dated request.payment_method request.pdc_date ≡ true
      → lookup payment_id s.payments ≡ none
      → is_gateway_taken request.gateway_transaction_id s.payments ≡ false
      → (s' : ReceivableStore) × (add_payment now workspace_id invoice_id invoice user_id key
            payment_id request
            (record s { idempotency_keys = ks })
          ≡ ok (payment_id, s'))
  unfolding add_payment
  adds invoice ks nn fits dated absent free =
      let (columns, typed) = insert_status_returns request.payment_method request.pdc_date dated in
      let amount_nn : ltb_ℤ request.amount zero_ℤ ≡ false = ground arith in
      let le : ltb_ℤ (balance_due invoice_id invoice s.payments) request.amount ≡ false =
        ground arith in
      let p = payment_of now invoice_id request columns in
      let t : ReceivableStore = record s {
        payments = put payment_id p s.payments;
        idempotency_keys = key_row now workspace_id key payment_id ∷ ks;
      } in
      (
        settle_payment now workspace_id invoice_id invoice user_id t,
        rw
            (
              le,
              typed,
              insert_payment_free payment_id p (record s { idempotency_keys = ks }) absent amount_nn
                  free,
            )
            refl,
      )

  returns :
      (invoice : Invoice)
      → load_invoice workspace_id invoice_id s ≡ some invoice
      → is_live now workspace_id key s ≡ false
      → ((ks : List IdempotencyKey)
          → (s' : ReceivableStore) × (add_payment now workspace_id invoice_id invoice user_id key
                payment_id request
                (record s { idempotency_keys = ks })
              ≡ ok (payment_id, s')))
      → (s' : ReceivableStore) × (record_payment now workspace_id invoice_id user_id key payment_id
            request s
          ≡ ok (payment_id, s'))
  unfolding record_payment
  returns invoice loaded dead add =
      elim (Option-cases (find_key workspace_id key s.idempotency_keys)) [
        | inl absent ↦ let (s', added) = add s.idempotency_keys in (s', rw (loaded, absent) added)
        | inr (own, present) ↦
            let (s', added) = add (delete_key workspace_id key s.idempotency_keys) in
            let expired : ltb now own.expires_at ≡ false =
              sym (ap (is_live_key now) present) ∙ dead in
            (s', rw (loaded, present, expired) added)
      ]

  -- A payment of an amount from zero to what the invoice has open, with a date if it is a post-dated
  -- cheque, under a key that is new or expired, a new id and a new transaction id, is recorded: the call
  -- returns the id, under which the store then has a payment of this invoice, amount and method, pending
  -- and received for a post-dated cheque and else successful. The other payments stay, and the invoices
  -- but for their statuses; the key stands for the payment for 48 hours; and what the invoice has
  -- open, and no other, is less by the amount, unless it is a post-dated cheque.
  pub record_payment_returns :
      (invoice : Invoice)
      → load_invoice workspace_id invoice_id s ≡ some invoice
      → is_live now workspace_id key s ≡ false
      → zero_ℤ ≤ℤ request.amount
      → request.amount ≤ℤ balance_due invoice_id invoice s.payments
      → is_dated request.payment_method request.pdc_date ≡ true
      → lookup payment_id s.payments ≡ none
      → is_gateway_taken request.gateway_transaction_id s.payments ≡ false
      → (s' : ReceivableStore) × (record_payment now workspace_id invoice_id user_id key payment_id
            request s
          ≡ ok (payment_id, s'))
        × Recorded now workspace_id invoice_id key payment_id request s s'
  record_payment_returns invoice loaded dead nn fits dated absent free =
      let (s', done) =
        returns invoice loaded dead (λ ks. adds invoice ks nn fits dated absent free) in
      (s', done, (recorded s' payment_id done dead).1)
