-- ===== src/Payables/Recorded.antt =====
-- A recorded payment (services/supplier_payment_service.py) keeps the stored amounts.
use rezorpay_pro.Common.{
  ℕ, ℤ, zero_ℤ, Bool, true, false, not, ◌&&◌, Option, none, some, List, ◌∷◌, ◌≡◌, ◌+ℤ◌, refl, ap,
  ◌∙◌, subst, lookup, put, nat_eq, ltb_ℤ, leb_ℤ, ltb, if◌then◌else◌, ok, err_not_ok, or_raise-eq-ok,
  raise_if-eq-ok, >>=-eq-ok, ok_injective, inl, inr, Bool-cases, Option-cases,
}
use rezorpay_pro.Receivable.{is_pdc, PaymentStatus, is_success, IdempotencyKey}
use rezorpay_pro.Payments.{find_key, delete_key}
use rezorpay_pro.Payments.Record.{key_row}
use rezorpay_pro.Payables.{
  SupplierInvoice, SupplierPayment, PayableStore, settle, lock_supplier_invoice,
}
use rezorpay_pro.Payables.Record.{
  SupplierRequest, is_payable, has_no_date, is_there, insert_supplier_payment, supplier_payment_of,
  supplier_replay, add_supplier_payment, record_supplier_payment,
}
use rezorpay_pro.Payables.Book.{
  Booked, column, shift_zero, paid_for, paid_share, paid_for-insert, share_none,
}
use rezorpay_pro.Payables.Served.{settle_new-Booked}
use rezorpay_pro.Payables.Calls.{Kept, same-Kept, lock_supplier_invoice-some}

pub insert-eq-ok :
    (id : ℕ) (p : SupplierPayment) (s t : PayableStore)
    → insert_supplier_payment id p s ≡ ok t
    → (lookup id s.payments ≡ none) × (record s { payments = put id p s.payments } ≡ t)
unfolding insert_supplier_payment
insert-eq-ok id p s t h =
    let (free, h₁) = raise_if-eq-ok (is_there (lookup id s.payments)) _ _ h in
    let (positive, h₂) = raise_if-eq-ok (leb_ℤ p.amount zero_ℤ) _ _ h₁ in
    (free_id (lookup id s.payments) free, ok_injective h₂)
  where
    free_id : (o : Option SupplierPayment) → is_there o ≡ false → o ≡ none
    free_id none h = refl
    free_id (some q) h = cc

worthless : (a b : ℤ) → b ≡ zero_ℤ → a +ℤ b ≡ a +ℤ zero_ℤ
worthless a b h = ap (λ x. a +ℤ x) h

-- A cheque that is recorded counts for nothing yet.
waiting-Booked :
    (id : ℕ) (q : SupplierPayment) (ks : List IdempotencyKey) (s : PayableStore)
    → lookup id s.payments ≡ none
    → is_success q.status ≡ false
    → Booked (λ j. zero_ℤ) s (record s { payments = put id q s.payments; idempotency_keys = ks })
waiting-Booked id q ks s absent waits = record {
  paid = λ j.
      paid_for-insert j id q s.payments absent
      ∙ worthless (paid_for j s.payments) (paid_share j q) (share_none q j waits);
  stored = λ j. shift_zero (column (lookup j s.invoices));
}

counted :
    (c : Bool) → is_success (if c then PaymentStatus.pending else PaymentStatus.success) ≡ not c
counted true = refl
counted false = refl

module _ (now workspace_id i user_id key id : ℕ) (request : SupplierRequest) (s s' : PayableStore)
    (new_id : ℕ) where
  -- The key, and the settlement unless it is a cheque.
  finish :
      (invoice : SupplierInvoice) (q : SupplierPayment) (ks : List IdempotencyKey)
      (t : PayableStore)
      → lookup i s.invoices ≡ some invoice
      → lookup id s.payments ≡ none
      → record s { payments = put id q s.payments; idempotency_keys = ks } ≡ t
      → is_success q.status ≡ not (is_pdc request.payment_method)
      → q.amount ≡ request.amount
      → q.supplier_invoice_id ≡ i
      → (let u : PayableStore = record t {
        idempotency_keys = key_row now workspace_id key id ∷ t.idempotency_keys;
      } in
          if not (is_pdc request.payment_method)
          then settle now workspace_id i invoice request.amount user_id u
          else u)
        ≡ s'
      → Kept s s'
  finish invoice q ks t found absent e counts amount linked h =
      let keys = key_row now workspace_id key id ∷ ks in
      let u : PayableStore = record s { payments = put id q s.payments; idempotency_keys = keys } in
      let same : u
          ≡ record t { idempotency_keys = key_row now workspace_id key id ∷ t.idempotency_keys } =
        ap
          (λ (x : PayableStore). record x {
            idempotency_keys = key_row now workspace_id key id ∷ x.idempotency_keys;
          })
          e in
      elim (Bool-cases (is_pdc request.payment_method)) [
        | inl cheque ↦
            subst (Kept s) (same ∙ rw cheque at h)
              (_, waiting-Booked id q keys s absent (counts ∙ ap not cheque))
        | inr plain ↦
            subst (Kept s)
              (ap (λ a. settle now workspace_id i invoice a user_id u) amount
                ∙ ap (λ x. settle now workspace_id i invoice request.amount user_id x) same
                ∙ rw plain at h)
              (
                _,
                settle_new-Booked now workspace_id i id user_id invoice q keys s found absent
                    (counts ∙ ap not plain) linked,
              )
      ]

  added-Kept :
      (invoice : SupplierInvoice) (ks : List IdempotencyKey)
      → lookup i s.invoices ≡ some invoice
      → add_supplier_payment now workspace_id i invoice user_id key id request
          (record s { idempotency_keys = ks })
        ≡ ok (new_id, s')
      → Kept s s'
  unfolding add_supplier_payment
  added-Kept invoice ks found h =
      let q = supplier_payment_of now workspace_id i invoice user_id request in
      let (live, h₁) = raise_if-eq-ok (not (is_payable invoice.status)) _ _ h in
      let (fits, h₂) = raise_if-eq-ok (ltb_ℤ invoice.balance_due request.amount) _ _ h₁ in
      let (dated, h₃) =
        raise_if-eq-ok (is_pdc request.payment_method && has_no_date request.pdc_date) _ _ h₂ in
      let (t, stored, h₄) =
        >>=-eq-ok (insert_supplier_payment id q (record s { idempotency_keys = ks })) _ h₃ in
      let (absent, e) = insert-eq-ok id q (record s { idempotency_keys = ks }) t stored in
      finish invoice q ks t found absent e (counted (is_pdc request.payment_method)) refl refl
        (ap (λ x. x.1) (ok_injective h₄))

  pub record_supplier_payment-Kept :
      record_supplier_payment now workspace_id i user_id key id request s ≡ ok (new_id, s')
      → Kept s s'
  unfolding record_supplier_payment supplier_replay
  record_supplier_payment-Kept h =
      let (invoice, locked, h₁) = or_raise-eq-ok (lock_supplier_invoice workspace_id i s) _ _ h in
      let found = lock_supplier_invoice-some workspace_id i s invoice locked in
      elim (Option-cases (find_key workspace_id key s.idempotency_keys)) [
        | inl absent ↦ added-Kept invoice s.idempotency_keys found (rw absent at h₁)
        | inr (row, present) ↦ elim (Bool-cases (ltb now row.expires_at)) [
          | inl live ↦ same-Kept s s' (replay-same row (rw (present, live) at h₁))
          | inr expired ↦
              added-Kept invoice (delete_key workspace_id key s.idempotency_keys) found
                (rw (present, expired) at h₁)
        ]
      ]
    where
      replay-same : (row : IdempotencyKey) → supplier_replay row s ≡ ok (new_id, s') → s ≡ s'
      replay-same row h = elim (Option-cases (lookup row.payment_id s.payments)) [
        | inl gone ↦ absurd (err_not_ok (rw (gone, supplier_replay) at h))
        | inr (p, e) ↦ ap (λ x. x.1) (ok_injective (rw (e, supplier_replay) at h))
      ]
