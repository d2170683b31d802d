-- ===== src/Cheques/Effect.antt =====
-- The balances of the invoices around the calls of services/pdc_service.py.
use rezorpay_pro.Common.{
  ℕ, ℤ, zero_ℤ, true, false, Option, none, some, ◌≡◌, ◌≤ℤ◌, ◌+ℤ◌, sym, ap, ◌∙◌, subst, lookup,
  lookup-put_self, put, nat_eq, ok, inl, inr, int_laws, arith, some_inj,
}
use rezorpay_pro.Stock.Ledger.{User}
use rezorpay_pro.Receivable.{
  Payment, PdcStatus, cleared, ReceivableStore, amount_paid, counted_for, is_success,
}
use rezorpay_pro.Receivable.Restated.{due_at, raw_at}
use rezorpay_pro.Receivable.Balance.{amount_paid-replace}
use rezorpay_pro.Receivable.Paid.{IsCovered, Paid, due_at-paid, covered_step}
use rezorpay_pro.Cheques.Machine.{Moved, stand_at, standing}
use rezorpay_pro.Cheques.Runs.{Action, act, act-Moves}

uncounted :
    (a b c d : ℤ) (j : ℕ) (p : Payment)
    → is_success p.status ≡ false
    → a +ℤ counted_for j p ≡ b +ℤ d
    → a ≡ b +ℤ d
uncounted a b c d j p h e = grind int_laws

settled_only : (m : PdcStatus) → is_success (standing m) ≡ true → m ≡ cleared
settled_only m h = grind arith

Moved-Paid :
    (id : ℕ) (p : Payment) (s s' : ReceivableStore) (m : Moved id p s s')
    → lookup id s.payments ≡ some p
    → zero_ℤ ≤ℤ p.amount
    → Paid (stand_at m.after p) s s'
Moved-Paid id p s s' m found nn = record {
  nonneg = nn;
  fits = λ succeeds. m.fits (settled_only m.after succeeds);
  paid = λ j.
      ap (amount_paid j) m.rest.payments
      ∙ uncounted (amount_paid j (put id (stand_at m.after p) s.payments))
          (amount_paid j s.payments) zero_ℤ (counted_for j (stand_at m.after p)) j p m.unpaid
          (amount_paid-replace j id (stand_at m.after p) p s.payments found);
  invoices = m.rest.invoices;
}

-- What the payment of an id counts for an invoice.
abbrev pub counted_by : ℕ → Option Payment → ℤ
counted_by j none = zero_ℤ
counted_by j (some p) = counted_for j p

abbrev pub counted_in : ℕ → ℕ → ReceivableStore → ℤ
counted_in j id s = counted_by j (lookup id s.payments)

no_count : (j : ℕ) (p : Payment) → is_success p.status ≡ false → counted_for j p ≡ zero_ℤ
no_count j p h = ground arith

add_zero : (a b c d : ℤ) → a +ℤ b ≡ c → d ≡ zero_ℤ → a +ℤ b ≡ c +ℤ d
add_zero a b c d e z = grind int_laws

module _ (action : Action) (now workspace_id invoice_id payment_id : ℕ) (user : User)
    (s s' : ReceivableStore) (p : Payment)
    (h : act action now workspace_id invoice_id payment_id user s ≡ ok s')
    (found : lookup payment_id s.payments ≡ some p) (nn : zero_ℤ ≤ℤ p.amount) where
  -- A call that returns, for a cheque whose amount is not negative, never makes an invoice paid for more
  -- than it comes to: where that holds of every invoice before the call, it holds of every invoice
  -- after it.
  pub act-IsCovered : IsCovered s → IsCovered s'
  act-IsCovered c j =
      let (q, (there, either)) =
        act-Moves action now workspace_id invoice_id payment_id user s s' h in
      let same : p ≡ q = some_inj (sym found ∙ there) in
      elim either [
        | inl (e, done) ↦ subst (λ x. zero_ℤ ≤ℤ raw_at j x) e (c j)
        | inr (m, brings) ↦
            covered_step (stand_at m.after q) s s'
              (Moved-Paid payment_id q s s' m there
                (subst (λ (x : Payment). zero_ℤ ≤ℤ x.amount) same nn))
              j (c j)
      ]

  -- A call that returns, for a cheque whose amount is not negative, takes off what an invoice has open
  -- exactly what the cheque comes to count for it: both together are what they were.
  pub act_balance :
      (j : ℕ) → due_at j s' +ℤ counted_in j payment_id s' ≡ due_at j s +ℤ counted_in j payment_id s
  act_balance j =
      let (q, (there, either)) =
        act-Moves action now workspace_id invoice_id payment_id user s s' h in
      let same : p ≡ q = some_inj (sym found ∙ there) in
      elim either [
        | inl (e, done) ↦ ap (λ x. due_at j x +ℤ counted_in j payment_id x) (sym e)
        | inr (m, brings) ↦
            let r =
              Moved-Paid payment_id q s s' m there
                (subst (λ (x : Payment). zero_ℤ ≤ℤ x.amount) same nn) in
            rw
              (ap (lookup payment_id) m.rest.payments
                ∙ lookup-put_self payment_id (stand_at m.after q) s.payments)
              (add_zero (due_at j s') (counted_for j (stand_at m.after q)) (due_at j s)
                (counted_in j payment_id s) (due_at-paid (stand_at m.after q) s s' r j)
                (ap (counted_by j) there ∙ no_count j q m.unpaid))
      ]
