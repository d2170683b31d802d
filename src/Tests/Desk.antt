-- ===== src/Tests/Desk.antt =====
-- A small ledger of receivables: one client with one invoice, and a cheque that waits.
use rezorpay_pro.Common.{
  ℕ, zero_ℤ, pos, false, ◌+◌, ◌*◌, none, some, [], ◌∷◌, lookup, nat_eq, sum_by, arith, ◌-ℤ◌, ◌+ℤ◌,
}
use rezorpay_pro.Stock.Ledger.{User, owner}
use rezorpay_pro.Receivable.{
  bank_transfer, pdc, sent, received, pending, Payment, Invoice, Client, Workspace, active,
  ReceivableStore, raw_balance, amount_paid,
}
use rezorpay_pro.Receivable.Paid.{IsCovered}
use rezorpay_pro.Payments.{PaymentRequest}

abbrev pub boss : User
boss = record { id = 9; role = owner }

abbrev pub customer : Client
customer = record {
  workspace_id = 1;
  credit_limit = some (pos 500_000);
  payment_terms_days = 30;
  credit_status = active;
  credit_status_changed_at = none;
  credit_status_changed_by = none;
  credit_balance = zero_ℤ;
  is_deleted = false;
}

abbrev pub office : Workspace
office = record { credit_limit_default = pos 0; credit_warning_days = 30; credit_hold_days = 90 }

-- Due on day 100, of 1000.00.
abbrev pub bill : Invoice
bill = record {
  workspace_id = 1;
  client_id = 3;
  total_amount = pos 100_000;
  amount_credited = zero_ℤ;
  amount_debited = zero_ℤ;
  status = sent;
  due_date = 100;
  is_deleted = false;
}

abbrev pub post_dated : Payment
post_dated = record {
  invoice_id = 7;
  amount = pos 40_000;
  payment_date = 80;
  payment_method = pdc;
  status = pending;
  reference_number = none;
  bank_name = none;
  pdc_date = some 90;
  pdc_status = some received;
  gateway_transaction_id = none;
}

abbrev pub desk : ReceivableStore
desk = record {
  workspaces = (1, office) ∷ [];
  clients = (3, customer) ∷ [];
  invoices = (7, bill) ∷ [];
  payments = (20, post_dated) ∷ [];
  idempotency_keys = [];
  invoice_events = [];
  credit_events = [];
}

abbrev pub transfer : PaymentRequest
transfer = record {
  amount = pos 25_000;
  payment_method = bank_transfer;
  payment_date = none;
  reference_number = none;
  bank_name = none;
  pdc_date = none;
  gateway_transaction_id = none;
}

-- Noon of day 95, and of day 195.
abbrev pub noon : ℕ
noon = 95 * 86_400 + 43_200

abbrev pub late_noon : ℕ
late_noon = 195 * 86_400 + 43_200

pub desk-IsCovered : IsCovered desk
unfolding lookup raw_balance amount_paid sum_by ◌-ℤ◌ ◌+ℤ◌
desk-IsCovered j = ground arith
