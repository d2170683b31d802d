-- ===== src/Cheques/Ends.antt =====
-- Where cheques end, and that they can get there (services/pdc_service.py).
use rezorpay_pro.Common.{
  ℕ, ℤ, zero_ℤ, Bool, true, false, Option, some, List, ◌≡◌, ◌≤ℤ◌, ltb_ℤ, refl, ap, ◌∙◌, lookup, put,
  lookup-put_self, nat_eq, ==_iff, ok, arith, some_inj, int_laws, ◌+ℤ◌, Table,
}
use rezorpay_pro.Stock.Ledger.{User, is_manager}
use rezorpay_pro.Receivable.{
  Invoice, is_pdc, PdcStatus, received, deposited, cleared, Payment, pending, success,
  ReceivableStore, balance_due, amount_paid, counted_for,
}
use rezorpay_pro.Receivable.Balance.{amount_paid-replace, balance_due-same}
use rezorpay_pro.Credit.{utc_today}
use rezorpay_pro.Invoicing.{update_status_from_payments}
use rezorpay_pro.Invoicing.Settle.{update_status-Restated}
use rezorpay_pro.Payments.{load_invoice}
use rezorpay_pro.Payments.Once.{load_invoice-some}
use rezorpay_pro.Cheques.{cleared_already, ready, lock_payment, is_early, write, deposit, clear}
use rezorpay_pro.Cheques.Machine.{Move, to_bank, to_account, to_drawer, to_client, stand_at}
use rezorpay_pro.Cheques.Runs.{
  Call, requests, pdc_of, Reaches, stays, moves, cheque_at, requests-Reaches,
}

abbrev pub is_final : PdcStatus → Bool
is_final received = false
is_final deposited = false
is_final _ = true

no-Move : {m n : PdcStatus} → Move m n → is_final m ≡ true → ⊥
no-Move to_bank h = cc
no-Move to_account h = cc
no-Move to_drawer h = cc
no-Move to_client h = cc

final_stays :
    {a b : Option PdcStatus}
    → Reaches a b
    → (m : PdcStatus) → a ≡ some m
    → is_final m ≡ true
    → b ≡ a
final_stays stays m e final = refl
final_stays (moves move rest) m e final = absurd (no-Move move (ap is_final (some_inj e) ∙ final))

-- A cheque that is cleared, bounced or returned stays so, whatever calls are made.
pub requests_final :
    (cs : List Call) (id : ℕ) (s : ReceivableStore) (m : PdcStatus)
    → cheque_at id s ≡ some m
    → is_final m ≡ true
    → cheque_at id (requests cs s) ≡ some m
requests_final cs id s m e final = final_stays (requests-Reaches cs id s) m e final ∙ e

ready_returns :
    (workspace_id invoice_id id : ℕ) (user : User) (s : ReceivableStore) (invoice : Invoice)
    (p : Payment)
    → load_invoice workspace_id invoice_id s ≡ some invoice
    → lookup id s.payments ≡ some p
    → p.invoice_id ≡ invoice_id
    → is_manager user.role ≡ true
    → is_pdc p.payment_method ≡ true
    → ready workspace_id invoice_id id user s ≡ ok (invoice, p)
unfolding ready lock_payment
ready_returns workspace_id invoice_id id user s invoice p loaded found linked manager cheque =
    rw
      (
        ready,
        loaded,
        lock_payment,
        found,
        (==_iff p.invoice_id invoice_id).1 linked,
        manager,
        cheque,
      )
      refl

pending_uncounted : (j : ℕ) (p : Payment) → p.status ≡ pending → counted_for j p ≡ zero_ℤ
pending_uncounted j p h = ground arith

both_zero : (a b c d : ℤ) → a +ℤ c ≡ b +ℤ d → c ≡ zero_ℤ → d ≡ zero_ℤ → a ≡ b
both_zero a b c d e f g = grind int_laws

-- A deposit changes nothing that is open.
deposited_due :
    (i id : ℕ) (inv : Invoice) (p : Payment) (t : Table ℕ Payment)
    → lookup id t ≡ some p
    → p.status ≡ pending
    → balance_due i inv (put id (record p { pdc_status = some deposited }) t) ≡ balance_due i inv t
deposited_due i id inv p t found waits =
    let q : Payment = record p { pdc_status = some deposited } in
    balance_due-same i inv t (put id q t) (
      both_zero (amount_paid i (put id q t)) (amount_paid i t) (counted_for i p) (counted_for i q)
        (amount_paid-replace i id q p t found) (pending_uncounted i p waits)
        (pending_uncounted i q waits))

module _ (now later workspace_id invoice_id id : ℕ) (user : User) (s : ReceivableStore)
    (invoice : Invoice) (p : Payment)
    (loaded : load_invoice workspace_id invoice_id s ≡ some invoice)
    (found : lookup id s.payments ≡ some p) (linked : p.invoice_id ≡ invoice_id)
    (manager : is_manager user.role ≡ true) (cheque : is_pdc p.payment_method ≡ true)
    (waits : p.status ≡ pending) where
  abbrev in_bank : ReceivableStore
  in_bank = write id p p.status deposited s

  deposit_returns :
      p.pdc_status ≡ some received
      → is_early p.pdc_date (utc_today now) ≡ false
      → deposit now workspace_id invoice_id id user s ≡ ok in_bank
  unfolding deposit
  deposit_returns there due =
      rw
        (
          deposit,
          ready_returns workspace_id invoice_id id user s invoice p loaded found linked manager
              cheque,
          there,
          waits,
          due,
        )
        refl

  clear_returns :
      p.amount ≤ℤ balance_due invoice_id invoice s.payments
      → clear later workspace_id invoice_id id user in_bank
        ≡ ok
            (update_status_from_payments later invoice_id invoice user.id
              (write id (record p { pdc_status = some deposited }) success cleared in_bank)).2
  unfolding clear load_invoice
  clear_returns fits =
      let q : Payment = record p { pdc_status = some deposited } in
      let le : ltb_ℤ (balance_due invoice_id invoice in_bank.payments) p.amount ≡ false =
        rw (deposited_due invoice_id id invoice p s.payments found waits) (ground arith) in
      let still : cleared_already q ≡ false = ground arith in
      rw
        (
          ready_returns workspace_id invoice_id id user in_bank invoice q loaded
              (lookup-put_self id q s.payments) linked manager cheque,
          still,
          le,
        )
        refl

  -- An owner or admin can bring in a received cheque that waits, from its date on and while it fits what
  -- its invoice has open: the deposit returns, the clearing behind it returns at whatever time, and then
  -- the cheque is cleared.
  pub deposit-clear_returns :
      p.pdc_status ≡ some received
      → is_early p.pdc_date (utc_today now) ≡ false
      → p.amount ≤ℤ balance_due invoice_id invoice s.payments
      → (t : ReceivableStore) × (s' : ReceivableStore) × (deposit now workspace_id invoice_id id
            user s
          ≡ ok t)
        × (clear later workspace_id invoice_id id user t ≡ ok s')
        × (cheque_at id s' ≡ some cleared)
  deposit-clear_returns there due fits =
      let q : Payment = record p { pdc_status = some deposited } in
      let u = write id q success cleared in_bank in
      let rest =
        update_status-Restated later invoice_id invoice user.id u
          (load_invoice-some workspace_id invoice_id s invoice loaded) in
      (
        in_bank,
        _,
        deposit_returns there due,
        clear_returns fits,
        ap (λ t. pdc_of (lookup id t)) rest.payments
            ∙ ap pdc_of (lookup-put_self id (stand_at cleared q) in_bank.payments),
      )
