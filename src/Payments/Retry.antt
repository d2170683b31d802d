-- ===== src/Payments/Retry.antt =====
-- Calls of `record_payment` (services/payment_service.py) that are made again.
use rezorpay_pro.Common.{
  ℕ, true, false, some, List, ◌∷◌, ◌≡◌, ltb, ◌+◌, ◌<◌, refl, sym, ap, ◌∙◌, lookup, lookup-put_self,
  nat_eq, ==_iff, ok, inl, inr, arith,
}
use rezorpay_pro.Receivable.{Invoice, Payment, IdempotencyKey, ReceivableStore}
use rezorpay_pro.Payments.{PaymentRequest, load_invoice, find_key, is_key}
use rezorpay_pro.Payments.Record.{key_row, key_ttl, replay, payment_of, record_payment}
use rezorpay_pro.Payments.Once.{is_live, record_payment-cases}

pub find_key-first :
    (workspace_id key : ℕ) (row : IdempotencyKey) (ks : List IdempotencyKey)
    → is_key workspace_id key row ≡ true
    → find_key workspace_id key (row ∷ ks) ≡ some row
unfolding find_key
find_key-first workspace_id key row ks h = rw h

pub own_key :
    (now workspace_id key payment_id : ℕ)
    → is_key workspace_id key (key_row now workspace_id key payment_id) ≡ true
own_key now workspace_id key payment_id =
    rw ((==_iff workspace_id workspace_id).1 refl, (==_iff key key).1 refl)

replays :
    (now workspace_id invoice_id user_id key payment_id : ℕ) (request : PaymentRequest)
    (s : ReceivableStore) (invoice : Invoice) (row : IdempotencyKey) (p : Payment)
    → load_invoice workspace_id invoice_id s ≡ some invoice
    → find_key workspace_id key s.idempotency_keys ≡ some row
    → ltb now row.expires_at ≡ true
    → lookup row.payment_id s.payments ≡ some p
    → record_payment now workspace_id invoice_id user_id key payment_id request s
      ≡ ok (row.payment_id, s)
unfolding record_payment replay
replays now workspace_id invoice_id user_id key payment_id request s invoice row p loaded found live
      there =
    rw (record_payment, loaded, found, live, replay, there) refl

-- A payment recorded under a key that was not live is recorded once: for 48 hours every further call
-- of the workspace with this key, for whatever invoice of the workspace, user and payment, returns the
-- id of that payment and changes nothing.
pub record_payment_once :
    (now workspace_id invoice_id user_id key payment_id : ℕ) (request : PaymentRequest)
    (s s' : ReceivableStore) (id : ℕ)
    → record_payment now workspace_id invoice_id user_id key payment_id request s ≡ ok (id, s')
    → is_live now workspace_id key s ≡ false
    → (later other_id other_user new_id : ℕ) (other : PaymentRequest) (invoice : Invoice)
    → later < now + key_ttl
    → load_invoice workspace_id other_id s' ≡ some invoice
    → record_payment later workspace_id other_id other_user key new_id other s' ≡ ok (id, s')
record_payment_once now workspace_id invoice_id user_id key payment_id request s s' id h dead later
      other_id other_user new_id other invoice soon loaded =
    elim (record_payment-cases now workspace_id invoice_id user_id key payment_id request s s' id
      h) [
        | inl (live, e) ↦ let bad : true ≡ false = sym live ∙ dead in cc
        | inr (stale, (own, ks, found, same, a)) ↦
            let row = key_row now workspace_id key payment_id in
            rw same (
              replays later workspace_id other_id other_user key new_id other s' invoice row
                (payment_of now invoice_id request a.columns) loaded
                (ap (find_key workspace_id key) a.keyed
                  ∙ find_key-first workspace_id key row ks
                      (own_key now workspace_id key payment_id))
                (ground arith)
                (ap (lookup payment_id) a.inserted.inserted
                  ∙ lookup-put_self payment_id (payment_of now invoice_id request a.columns)
                      s.payments))
      ]
