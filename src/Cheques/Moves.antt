-- ===== src/Cheques/Moves.antt =====
-- Each call of services/pdc_service.py leaves the store, or makes one move of the machine.
use rezorpay_pro.Common.{
  ℕ, true, false, not, ◌&&◌, ◌||◌, some, ◌≡◌, ◌≤ℤ◌, ◌⊎◌, ltb_ℤ, refl, subst, lookup, nat_eq, Result,
  ok, ◌>>=◌, raise_if-eq-ok, >>=-eq-ok, ok_injective, inl, inr, Bool-cases, arith,
}
use rezorpay_pro.Stock.Ledger.{User}
use rezorpay_pro.Receivable.{
  Invoice, is_pdc, PdcStatus, received, deposited, cleared, bounced, returned, pending, success,
  failed, is_success, Payment, ReceivableStore, balance_due,
}
use rezorpay_pro.Receivable.Restated.{Restated, Restated-refl, due_at}
use rezorpay_pro.Credit.{utc_today}
use rezorpay_pro.Invoicing.Settle.{update_status-Restated}
use rezorpay_pro.Payments.Cap.{evaluate_parties-Restated}
use rezorpay_pro.Cheques.{
  is_at, is_pending, cleared_already, ready, write, is_early, deposit, clear, bounce, return_cheque,
}
use rezorpay_pro.Cheques.Machine.{
  to_bank, to_account, to_drawer, to_client, Moved, Done, at_eq, pending_eq,
}
use rezorpay_pro.Cheques.Ready.{IsReady, ready-IsReady}

-- A call that is to bring the cheque there, by a move or as nothing is left to do.
abbrev pub Brings : PdcStatus → ℕ → Payment → ReceivableStore → ReceivableStore → Type 0
Brings to id p s s' = ((s ≡ s') × Done to p) ⊎ ((m : Moved id p s s') × (m.after ≡ to))

abbrev pub Moves : PdcStatus → ℕ → Payment → ReceivableStore → ReceivableStore → Type 0
Moves to id p s s' = (lookup id s.payments ≡ some p) × Brings to id p s s'

not_paid :
    (p : Payment)
    → is_pdc p.payment_method ≡ true
    → cleared_already p ≡ false
    → is_success p.status ≡ false
not_paid p cheque h = ground arith

paid_off : (p : Payment) → cleared_already p ≡ true → Done cleared p
paid_off p h = elim (Bool-cases (is_at cleared p.pdc_status)) [
  | inl there ↦ inl (at_eq cleared p.pdc_status there)
  | inr elsewhere ↦ inr (refl, ground arith)
]

module _ (now workspace_id invoice_id payment_id : ℕ) (user : User) (s s' : ReceivableStore) where
  from_ready :
      (to : PdcStatus) (body : Invoice × Payment → Result ReceivableStore)
      → ((invoice : Invoice) (p : Payment)
          → IsReady invoice_id payment_id invoice p s
          → body (invoice, p) ≡ ok s'
          → Brings to payment_id p s s')
      → (ready workspace_id invoice_id payment_id user s >>= body) ≡ ok s'
      → (p : Payment) × Moves to payment_id p s s'
  from_ready to body each h =
      let ((invoice, p), found, h₁) =
        >>=-eq-ok (ready workspace_id invoice_id payment_id user s) body h in
      let r = ready-IsReady workspace_id invoice_id payment_id user s invoice p found in
      (p, (r.recorded, each invoice p r h₁))

  pub return_cheque-Moves :
      return_cheque now workspace_id invoice_id payment_id user s ≡ ok s'
      → (p : Payment) × Moves returned payment_id p s s'
  unfolding return_cheque
  return_cheque-Moves h =
      from_ready returned _
        (λ invoice p r h₁. elim (Bool-cases (is_at returned p.pdc_status)) [
          | inl same ↦ inl (ok_injective (rw same at h₁), inl (at_eq returned p.pdc_status same))
          | inr other ↦
              let h₂ = rw other at h₁ in
              let (still, h₃) = raise_if-eq-ok (cleared_already p) _ _ h₂ in
              let (here, h₄) =
                raise_if-eq-ok (not (is_at received p.pdc_status) || not (is_pending p.status)) _ _
                  h₃ in
              inr (
                subst (λ x. (m : Moved payment_id p s x) × (m.after ≡ returned)) (ok_injective h₄)
                  (
                    record {
                      before = received;
                      after = returned;
                      move = to_client;
                      stood = at_eq received p.pdc_status (ground arith);
                      unpaid = not_paid p r.cheque still;
                      fits = λ e. absurd (distinct e);
                      rest = Restated-refl _;
                    },
                    refl,
                  ))
        ])
        h
    where
      distinct : returned ≡ cleared → ⊥
      distinct e = cc

  pub deposit-Moves :
      deposit now workspace_id invoice_id payment_id user s ≡ ok s'
      → (p : Payment) × Moves deposited payment_id p s s'
  unfolding deposit
  deposit-Moves h =
      from_ready deposited _
        (λ invoice p r h₁. elim (Bool-cases (is_at deposited p.pdc_status && is_pending p.status)) [
          | inl same ↦
              inl (ok_injective (rw same at h₁), inl (at_eq deposited p.pdc_status (ground arith)))
          | inr other ↦
              let h₂ = rw other at h₁ in
              let (still, h₃) = raise_if-eq-ok (cleared_already p) _ _ h₂ in
              let (here, h₄) =
                raise_if-eq-ok (not (is_at received p.pdc_status) || not (is_pending p.status)) _ _
                  h₃ in
              let (due, h₅) = raise_if-eq-ok (is_early p.pdc_date (utc_today now)) _ _ h₄ in
              let waits : p.status ≡ pending = pending_eq p.status (ground arith) in
              inr (
                subst (λ x. (m : Moved payment_id p s x) × (m.after ≡ deposited)) (ok_injective h₅)
                  (
                    record {
                      before = received;
                      after = deposited;
                      move = to_bank;
                      stood = at_eq received p.pdc_status (ground arith);
                      unpaid = not_paid p r.cheque still;
                      fits = λ e. absurd (distinct e);
                      rest =
                          subst
                            (λ st.
                              Restated (write payment_id p st deposited s)
                                (write payment_id p p.status deposited s))
                            waits (Restated-refl (write payment_id p p.status deposited s));
                    },
                    refl,
                  ))
        ])
        h
    where
      distinct : deposited ≡ cleared → ⊥
      distinct e = cc

  pub bounce-Moves :
      bounce now workspace_id invoice_id payment_id user s ≡ ok s'
      → (p : Payment) × Moves bounced payment_id p s s'
  unfolding bounce
  bounce-Moves h =
      from_ready bounced _
        (λ invoice p r h₁. elim (Bool-cases (is_at bounced p.pdc_status)) [
          | inl same ↦ inl (ok_injective (rw same at h₁), inl (at_eq bounced p.pdc_status same))
          | inr other ↦
              let h₂ = rw other at h₁ in
              let (still, h₃) = raise_if-eq-ok (cleared_already p) _ _ h₂ in
              let (here, h₄) = raise_if-eq-ok (not (is_at deposited p.pdc_status)) _ _ h₃ in
              let rest =
                evaluate_parties-Restated now invoice.workspace_id invoice user.id
                  (write payment_id p failed bounced s) in
              inr (
                subst (λ x. (m : Moved payment_id p s x) × (m.after ≡ bounced)) (ok_injective h₄)
                  (
                    record {
                      before = deposited;
                      after = bounced;
                      move = to_drawer;
                      stood = at_eq deposited p.pdc_status (ground arith);
                      unpaid = not_paid p r.cheque still;
                      fits = λ e. absurd (distinct e);
                      rest = rest;
                    },
                    refl,
                  ))
        ])
        h
    where
      distinct : bounced ≡ cleared → ⊥
      distinct e = cc

  fitting :
      (invoice : Invoice) (p : Payment)
      → IsReady invoice_id payment_id invoice p s
      → ltb_ℤ (balance_due invoice_id invoice s.payments) p.amount ≡ false
      → p.amount ≤ℤ due_at p.invoice_id s
  fitting invoice p r h = rw (r.linked, r.invoiced) (ground arith)

  pub clear-Moves :
      clear now workspace_id invoice_id payment_id user s ≡ ok s'
      → (p : Payment) × Moves cleared payment_id p s s'
  unfolding clear
  clear-Moves h =
      from_ready cleared _
        (λ invoice p r h₁. elim (Bool-cases (cleared_already p)) [
          | inl same ↦ inl (ok_injective (rw same at h₁), paid_off p same)
          | inr still ↦
              let h₂ = rw still at h₁ in
              let (here, h₃) = raise_if-eq-ok (not (is_at deposited p.pdc_status)) _ _ h₂ in
              let (fits, h₄) =
                raise_if-eq-ok (ltb_ℤ (balance_due invoice_id invoice s.payments) p.amount) _ _
                  h₃ in
              let rest =
                update_status-Restated now invoice_id invoice user.id
                  (write payment_id p success cleared s) r.invoiced in
              inr (
                subst (λ x. (m : Moved payment_id p s x) × (m.after ≡ cleared)) (ok_injective h₄)
                  (
                    record {
                      before = deposited;
                      after = cleared;
                      move = to_account;
                      stood = at_eq deposited p.pdc_status (ground arith);
                      unpaid = not_paid p r.cheque still;
                      fits = λ e. fitting invoice p r fits;
                      rest = rest;
                    },
                    refl,
                  ))
        ])
        h
