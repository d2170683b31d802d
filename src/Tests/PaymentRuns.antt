-- ===== src/Tests/PaymentRuns.antt =====
-- Payments of the small ledger.
use rezorpay_pro.Common.{
  pos, none, some, false, ◌≡◌, refl, ok, arith, nat_eq, lookup, put, sum, select, ◌+ℤ◌, ◌-ℤ◌,
  sum_by, err, http, ◌+◌, ◌≤ℤ◌, payment_exceeds_balance,
}
use rezorpay_pro.Receivable.{ReceivableStore, partially_paid, balance_due}
use rezorpay_pro.Payments.{find_key, load_invoice, is_gateway_taken}
use rezorpay_pro.Receivable.Paid.{IsCovered}
use rezorpay_pro.Receivable.Restated.{due_at}
use rezorpay_pro.Payments.Record.{record_payment}
use rezorpay_pro.Payments.Once.{is_live}
use rezorpay_pro.Payments.Books.{record_payment-IsCovered, record_payment_balance}
use rezorpay_pro.Payments.Retry.{record_payment_once}
use rezorpay_pro.Payments.Recorded.{Recorded, record_payment_returns}
use rezorpay_pro.Tests.Shop.{value_of}
use rezorpay_pro.Tests.Desk.{desk, desk-IsCovered, transfer, bill, noon}

abbrev paid_desk : ReceivableStore
paid_desk = (value_of (0, desk) (record_payment noon 1 7 9 5 21 transfer desk)).1

recorded : record_payment noon 1 7 9 5 21 transfer desk ≡ ok (21, paid_desk)
unfolding record_payment lookup ◌+ℤ◌ ◌-ℤ◌ sum_by
recorded = refl

paid_desk_due : due_at 7 paid_desk ≡ pos 75_000
unfolding record_payment lookup ◌+ℤ◌ ◌-ℤ◌ sum_by balance_due put sum select
paid_desk_due = refl

too_much :
    record_payment noon 1 7 9 6 22 (record transfer { amount = pos 100_001 }) desk
    ≡ err (http 400 payment_exceeds_balance)
unfolding record_payment lookup ◌+ℤ◌ ◌-ℤ◌ sum_by
too_much = refl

record_payment-IsCovered_example : IsCovered paid_desk
record_payment-IsCovered_example =
    record_payment-IsCovered noon 1 7 9 5 21 transfer desk paid_desk 21 recorded desk-IsCovered

no_key : is_live noon 1 5 desk ≡ false
unfolding find_key
no_key = refl

loaded : load_invoice 1 7 desk ≡ some bill
unfolding load_invoice lookup
loaded = refl

-- The bill is partially paid, and overdue neither before nor after.
loaded_later : load_invoice 1 7 paid_desk ≡ some (record bill { status = partially_paid })
unfolding record_payment load_invoice lookup ◌+ℤ◌ ◌-ℤ◌ sum_by put sum select
loaded_later = refl

-- The same key an hour later, for another amount.
record_payment_once_example :
    record_payment (noon + 3600) 1 7 8 5 22 (record transfer { amount = pos 1 }) paid_desk
    ≡ ok (21, paid_desk)
record_payment_once_example =
    record_payment_once noon 1 7 9 5 21 transfer desk paid_desk 21 recorded no_key (noon + 3600) 7 8
      22 (record transfer { amount = pos 1 }) (record bill { status = partially_paid })
      (omega arith) loaded_later

record_payment_balance_example : due_at 7 paid_desk +ℤ pos 25_000 ≡ due_at 7 desk
record_payment_balance_example =
    record_payment_balance noon 1 7 9 5 21 transfer desk paid_desk 21 recorded no_key 7

fits : pos 25_000 ≤ℤ balance_due 7 bill desk.payments
unfolding balance_due ◌+ℤ◌ ◌-ℤ◌ sum_by
fits = omega arith

new_id : lookup 21 desk.payments ≡ none
unfolding lookup
new_id = refl

free : is_gateway_taken none desk.payments ≡ false
unfolding is_gateway_taken
free = refl

record_payment_returns_example :
    (s' : ReceivableStore) × (record_payment noon 1 7 9 5 21 transfer desk ≡ ok (21, s'))
    × Recorded noon 1 7 5 21 transfer desk s'
record_payment_returns_example =
    record_payment_returns noon 1 7 9 5 21 transfer desk bill loaded no_key (omega arith) fits refl
      new_id free
