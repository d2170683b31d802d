-- ===== src/Payments/Once.antt =====
-- When `record_payment` (services/payment_service.py) returns, and what the key of a call is worth.
use rezorpay_pro.Common.{
  ℕ, Bool, true, false, Option, none, some, List, ◌≡◌, ltb, ap, ◌∙◌, ◌⊎◌, lookup, nat_eq, ◌==◌,
  if◌then◌else◌, ok, err_not_ok, or_raise-eq-ok, ok_injective, inl, inr, Bool-cases, Option-cases,
}
use rezorpay_pro.Receivable.{Invoice, IdempotencyKey, ReceivableStore}
use rezorpay_pro.Payments.{PaymentRequest, load_invoice, find_key, delete_key}
use rezorpay_pro.Payments.Record.{replay, add_payment, record_payment}
use rezorpay_pro.Payments.Cap.{Added, add_payment-Added}

-- A key that has not expired.
abbrev pub is_live_key : ℕ → Option IdempotencyKey → Bool
is_live_key now none = false
is_live_key now (some row) = ltb now row.expires_at

abbrev pub is_live : ℕ → ℕ → ℕ → ReceivableStore → Bool
is_live now workspace_id key s = is_live_key now (find_key workspace_id key s.idempotency_keys)

pub load_invoice-some :
    (workspace_id id : ℕ) (s : ReceivableStore) (invoice : Invoice)
    → load_invoice workspace_id id s ≡ some invoice
    → lookup id s.invoices ≡ some invoice
unfolding load_invoice
load_invoice-some workspace_id id s invoice h = elim (Option-cases (lookup id s.invoices)) [
  | inl absent ↦ let bad : none ≡ some invoice = rw (absent, load_invoice) at h in cc
  | inr (found, e) ↦ e ∙ kept (found.workspace_id == workspace_id) found (rw (e, load_invoice) at h)
]
  where
    kept :
        (c : Bool) (found : Invoice)
        → (if c then some found else none) ≡ some invoice
        → some found ≡ some invoice
    kept true found h = h
    kept false found h = cc

replay-same :
    (row : IdempotencyKey) (s s' : ReceivableStore) (id : ℕ) → replay row s ≡ ok (id, s') → s ≡ s'
unfolding replay
replay-same row s s' id h = elim (Option-cases (lookup row.payment_id s.payments)) [
  | inl absent ↦ absurd (err_not_ok (rw (absent, replay) at h))
  | inr (p, e) ↦ ap (λ x. x.1) (ok_injective (rw (e, replay) at h))
]

module _ (now workspace_id invoice_id user_id key payment_id : ℕ) (request : PaymentRequest)
    (s s' : ReceivableStore) (id : ℕ) where
  -- The call added a payment, with the keys `ks` before it.
  abbrev pub Fresh : Type 0
  Fresh =
      (invoice : Invoice) × (ks : List IdempotencyKey) × (lookup invoice_id s.invoices
        ≡ some invoice)
      × (id ≡ payment_id)
      × Added now workspace_id invoice_id invoice key payment_id request
          (record s { idempotency_keys = ks }) s'

  pub record_payment-cases :
      record_payment now workspace_id invoice_id user_id key payment_id request s ≡ ok (id, s')
      → ((is_live now workspace_id key s ≡ true) × (s ≡ s'))
        ⊎ ((is_live now workspace_id key s ≡ false) × Fresh)
  unfolding record_payment replay
  record_payment-cases h =
      let (invoice, loaded, h₁) = or_raise-eq-ok (load_invoice workspace_id invoice_id s) _ _ h in
      let found = load_invoice-some workspace_id invoice_id s invoice loaded in
      elim (Option-cases (find_key workspace_id key s.idempotency_keys)) [
        | inl absent ↦
            inr
              (ap (is_live_key now) absent, adds invoice s.idempotency_keys found (rw absent at h₁))
        | inr (row, present) ↦ elim (Bool-cases (ltb now row.expires_at)) [
          | inl live ↦ inl (
            ap (is_live_key now) present ∙ live,
            replay-same row s s' id (rw (present, live) at h₁),
          )
          | inr expired ↦ inr (
            ap (is_live_key now) present ∙ expired,
            adds invoice (delete_key workspace_id key s.idempotency_keys) found
                (rw (present, expired) at h₁),
          )
        ]
      ]
    where
      adds :
          (invoice : Invoice) (ks : List IdempotencyKey)
          → lookup invoice_id s.invoices ≡ some invoice
          → add_payment now workspace_id invoice_id invoice user_id key payment_id request
              (record s { idempotency_keys = ks })
            ≡ ok (id, s')
          → Fresh
      adds invoice ks found h =
          let (same, added) =
            add_payment-Added now workspace_id invoice_id invoice user_id key payment_id request
              (record s { idempotency_keys = ks }) s' id h found in
          (invoice, ks, found, same, added)
