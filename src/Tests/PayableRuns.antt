-- ===== src/Tests/PayableRuns.antt =====
-- A supplier is paid, and the payment is taken back.
use rezorpay_pro.Common.{
  zero_ℤ, pos, none, some, [], ◌∷◌, ◌≡◌, refl, ok, arith, nat_eq, lookup, sum_by,
}
use rezorpay_pro.Receivable.{bank_transfer}
use rezorpay_pro.Payments.{find_key}
use rezorpay_pro.Payables.{
  SupplierInvoice, SupplierInvoiceStatus, PayableStore, lock_supplier_invoice,
}
use rezorpay_pro.Payables.Record.{SupplierRequest, record_supplier_payment}
use rezorpay_pro.Payables.Reverse.{reverse_payment}
use rezorpay_pro.Payables.Book.{IsBooked, paid_for}
use rezorpay_pro.Payables.Booking.{serve, records, serve-IsBooked}
use rezorpay_pro.Payables.Undo.{IsOpen}
use rezorpay_pro.Payables.Undone.{reverse_payment_undoes}
use rezorpay_pro.Tests.Shop.{value_of}
use rezorpay_pro.Tests.Desk.{boss, noon}

abbrev order_bill : SupplierInvoice
order_bill = record {
  workspace_id = 1;
  supplier_id = 4;
  amount_paid = zero_ℤ;
  balance_due = pos 80_000;
  status = SupplierInvoiceStatus.approved;
  paid_at = none;
}

abbrev creditor : PayableStore
creditor = record {
  invoices = (6, order_bill) ∷ [];
  payments = [];
  idempotency_keys = [];
  events = [];
}

abbrev all_of_it : SupplierRequest
all_of_it = record {
  amount = pos 80_000;
  payment_method = bank_transfer;
  payment_date = none;
  reference_number = none;
  bank_name = none;
  pdc_date = none;
}

abbrev paid_creditor : PayableStore
paid_creditor = value_of creditor (serve (records 5 30 all_of_it) noon 1 6 boss creditor)

served : serve (records 5 30 all_of_it) noon 1 6 boss creditor ≡ ok paid_creditor
unfolding serve lookup
served = refl

creditor-IsBooked : IsBooked creditor
unfolding lookup paid_for sum_by
creditor-IsBooked j = ground arith

serve-IsBooked_example : IsBooked paid_creditor
serve-IsBooked_example =
    serve-IsBooked (records 5 30 all_of_it) noon 1 6 boss creditor paid_creditor served
      creditor-IsBooked

recorded : record_supplier_payment noon 1 6 9 5 30 all_of_it creditor ≡ ok (30, paid_creditor)
unfolding serve record_supplier_payment lookup
recorded = refl

locked : lock_supplier_invoice 1 6 creditor ≡ some order_bill
unfolding lock_supplier_invoice lookup
locked = refl

fresh : find_key 1 5 creditor.idempotency_keys ≡ none
unfolding find_key
fresh = refl

order_bill-IsOpen : IsOpen order_bill
order_bill-IsOpen = record { nonneg = omega arith; payable = refl; untouched = refl }

reverse_payment_undoes_example :
    (s' : PayableStore) × (reverse_payment 1 6 30 boss paid_creditor ≡ ok s')
    × (lookup 6 s'.invoices ≡ some (record order_bill { paid_at = none }))
reverse_payment_undoes_example =
    reverse_payment_undoes noon 1 6 9 5 30 all_of_it creditor paid_creditor 30 order_bill boss
      recorded locked fresh refl order_bill-IsOpen refl
