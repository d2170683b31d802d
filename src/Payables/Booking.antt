-- ===== src/Payables/Booking.antt =====
-- The stored amounts of the supplier invoices, kept by every call that pays or takes back.
use rezorpay_pro.Common.{
  ℕ, not, ◌≡◌, subst, nat_eq, ltb_ℤ, Result, ok, ◌>>=◌, or_raise-eq-ok, raise_if-eq-ok, >>=-eq-ok,
  ok_injective, inl, inr, Bool-cases, arith,
}
use rezorpay_pro.Stock.Ledger.{User, is_manager}
use rezorpay_pro.Receivable.{is_pdc, is_success}
use rezorpay_pro.Payables.{PayableStore, lock_supplier_invoice, lock_supplier_payment}
use rezorpay_pro.Payables.Record.{SupplierRequest, record_supplier_payment}
use rezorpay_pro.Payables.Issued.{
  supplier_deposit, supplier_clear, supplier_bounce, supplier_return_cheque,
}
use rezorpay_pro.Payables.Reverse.{reverse_payment, is_failed, is_reversible}
use rezorpay_pro.Payables.Book.{IsBooked, Booked-IsBooked}
use rezorpay_pro.Payables.Served.{unsettle-Booked}
use rezorpay_pro.Payables.Calls.{
  Kept, same-Kept, lock_supplier_invoice-some, lock_supplier_payment-some, supplier_bounce-Kept,
  supplier_return_cheque-Kept, supplier_deposit-Kept, supplier_clear-Kept,
}
use rezorpay_pro.Payables.Recorded.{record_supplier_payment-Kept}

module _ (workspace_id i id : ℕ) (user : User) (s s' : PayableStore) where
  reverse_payment-Kept : reverse_payment workspace_id i id user s ≡ ok s' → Kept s s'
  unfolding reverse_payment
  reverse_payment-Kept h =
      let (invoice, locked, h₁) = or_raise-eq-ok (lock_supplier_invoice workspace_id i s) _ _ h in
      let (p, held, h₂) = or_raise-eq-ok (lock_supplier_payment i id s) _ _ h₁ in
      let (manager, h₃) = raise_if-eq-ok (not (is_manager user.role)) _ _ h₂ in
      let (plain, h₄) = raise_if-eq-ok (is_pdc p.payment_method) _ _ h₃ in
      let found = lock_supplier_invoice-some workspace_id i s invoice locked in
      let (recorded, linked) = lock_supplier_payment-some i id s p held in
      elim (Bool-cases (is_failed p.status)) [
        | inl same ↦ same-Kept s s' (ok_injective (rw same at h₄))
        | inr other ↦
            let h₅ = rw other at h₄ in
            let (paid, h₆) = raise_if-eq-ok (not (is_success p.status)) _ _ h₅ in
            let (live, h₇) = raise_if-eq-ok (not (is_reversible invoice.status)) _ _ h₆ in
            let (fits, h₈) = raise_if-eq-ok (ltb_ℤ invoice.amount_paid p.amount) _ _ h₇ in
            subst (Kept s) (ok_injective h₈) (
              _,
              unsettle-Booked workspace_id i id user.id invoice p s found recorded (ground arith)
                  linked,
            )
      ]

-- A call on the supplier invoice and, but for a new payment, on one of its payments.
pub data SupplierCall : Type 0 where
  records : (key payment_id : ℕ) → SupplierRequest → SupplierCall
  deposits clears bounces returns reverses : (payment_id : ℕ) → SupplierCall

unfoldable pub serve : SupplierCall → ℕ → ℕ → ℕ → User → PayableStore → Result PayableStore
unfolding record_supplier_payment supplier_deposit supplier_clear supplier_bounce
    supplier_return_cheque reverse_payment
serve (records key payment_id request) now workspace_id invoice_id user s =
    record_supplier_payment now workspace_id invoice_id user.id key payment_id request s >>= λ r.
    ok r.1
serve (deposits id) now workspace_id invoice_id user s =
    supplier_deposit now workspace_id invoice_id id user s
serve (clears id) now workspace_id invoice_id user s =
    supplier_clear now workspace_id invoice_id id user s
serve (bounces id) now workspace_id invoice_id user s =
    supplier_bounce workspace_id invoice_id id user s
serve (returns id) now workspace_id invoice_id user s =
    supplier_return_cheque workspace_id invoice_id id user s
serve (reverses id) now workspace_id invoice_id user s =
    reverse_payment workspace_id invoice_id id user s

serve-Kept :
    (c : SupplierCall) (now workspace_id i : ℕ) (user : User) (s s' : PayableStore)
    → serve c now workspace_id i user s ≡ ok s'
    → Kept s s'
unfolding serve
serve-Kept (records key id request) now workspace_id i user s s' h =
    let ((new_id, t), recorded, h₁) =
      >>=-eq-ok (record_supplier_payment now workspace_id i user.id key id request s) _ h in
    subst (Kept s) (ok_injective h₁)
      (record_supplier_payment-Kept now workspace_id i user.id key id request s t new_id recorded)
serve-Kept (deposits id) now workspace_id i user s s' h =
    supplier_deposit-Kept now workspace_id i id user s s' h
serve-Kept (clears id) now workspace_id i user s s' h =
    supplier_clear-Kept now workspace_id i id user s s' h
serve-Kept (bounces id) now workspace_id i user s s' h =
    supplier_bounce-Kept now workspace_id i id user s s' h
serve-Kept (returns id) now workspace_id i user s s' h =
    supplier_return_cheque-Kept now workspace_id i id user s s' h
serve-Kept (reverses id) now workspace_id i user s s' h =
    reverse_payment-Kept workspace_id i id user s s' h

-- A call that records, deposits, clears, bounces, returns or reverses a payment to a supplier, and
-- returns, keeps the stored amount of every supplier invoice equal to the sum of its successful payments.
pub serve-IsBooked :
    (c : SupplierCall) (now workspace_id invoice_id : ℕ) (user : User) (s s' : PayableStore)
    → serve c now workspace_id invoice_id user s ≡ ok s'
    → IsBooked s
    → IsBooked s'
serve-IsBooked c now workspace_id invoice_id user s s' h booked =
    let (delta, b) = serve-Kept c now workspace_id invoice_id user s s' h in
    Booked-IsBooked delta s s' b booked
