-- ===== src/Cheques/Machine.antt =====
-- The machine that services/pdc_service.py documents for a post-dated cheque, and what a call of the
-- service does to the store in its terms.
use rezorpay_pro.Common.{ℕ, true, false, Option, none, some, ◌≡◌, ◌⊎◌, ◌≤ℤ◌, put, nat_eq, arith}
use rezorpay_pro.Receivable.{
  PdcStatus, received, deposited, cleared, bounced, returned, PaymentStatus, pending, success,
  failed, is_success, Payment, ReceivableStore,
}
use rezorpay_pro.Receivable.Restated.{Restated, due_at}
use rezorpay_pro.Cheques.{is_at, is_pending}

-- RECEIVED → DEPOSITED → CLEARED | BOUNCED; RECEIVED → RETURNED.
pub data Move : PdcStatus → PdcStatus → Type 0 where
  to_bank : Move received deposited
  to_account : Move deposited cleared
  to_drawer : Move deposited bounced
  to_client : Move received returned

-- The status of a payment whose cheque stands there.
abbrev pub standing : PdcStatus → PaymentStatus
standing received = pending
standing deposited = pending
standing cleared = success
standing bounced = failed
standing returned = PaymentStatus.cancelled

abbrev pub stand_at : PdcStatus → Payment → Payment
stand_at to p = record p { status = standing to; pdc_status = some to }

-- The store with the cheque brought there.
abbrev pub brought : ℕ → PdcStatus → Payment → ReceivableStore → ReceivableStore
brought id to p s = record s { payments = put id (stand_at to p) s.payments }

-- One move of the cheque `p`, which is counted towards its invoice only if it clears, and then fits
-- what the invoice has open.
pub record Moved (id : ℕ) (p : Payment) (s s' : ReceivableStore) : Type 0 where
  pub before : PdcStatus
  pub after : PdcStatus
  pub move : Move before after
  pub stood : p.pdc_status ≡ some before
  pub unpaid : is_success p.status ≡ false
  pub fits : (after ≡ cleared) → p.amount ≤ℤ due_at p.invoice_id s
  pub rest : Restated (brought id after p s) s'

-- A cheque for which a call that brings it there has nothing left to do: it stands there, or was
-- paid before cheques had a status.
abbrev pub Done : PdcStatus → Payment → Type 0
Done to p = (p.pdc_status ≡ some to) ⊎ ((to ≡ cleared) × (is_success p.status ≡ true))

pub at_eq : (m : PdcStatus) (o : Option PdcStatus) → is_at m o ≡ true → o ≡ some m
at_eq m none h = grind arith
at_eq m (some n) h = grind arith

pub pending_eq : (st : PaymentStatus) → is_pending st ≡ true → st ≡ pending
pending_eq st h = grind arith
