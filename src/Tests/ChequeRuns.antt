-- ===== src/Tests/ChequeRuns.antt =====
-- A cheque of the small ledger is deposited and cleared.
use rezorpay_pro.Common.{
  some, [], ◌∷◌, false, ◌≡◌, refl, ok, arith, nat_eq, lookup, put, ◌+ℤ◌, ◌-ℤ◌, sum_by, ◌≤ℤ◌,
}
use rezorpay_pro.Receivable.{ReceivableStore, Payment, received, deposited, cleared, balance_due}
use rezorpay_pro.Receivable.Restated.{due_at}
use rezorpay_pro.Payments.{load_invoice}
use rezorpay_pro.Credit.{utc_today}
use rezorpay_pro.Cheques.{deposit, clear, is_early}
use rezorpay_pro.Cheques.Moves.{Moves}
use rezorpay_pro.Cheques.Runs.{
  Call, act, deposits, clears, act-Moves, requests, Reaches, cheque_at, requests-Reaches,
}
use rezorpay_pro.Cheques.Effect.{act_balance, counted_in}
use rezorpay_pro.Cheques.Ends.{deposit-clear_returns}
use rezorpay_pro.Tests.Shop.{value_of}
use rezorpay_pro.Tests.Desk.{desk, boss, bill, post_dated, noon, late_noon}

abbrev bank_desk : ReceivableStore
bank_desk = value_of desk (act deposits noon 1 7 20 boss desk)

abbrev cleared_desk : ReceivableStore
cleared_desk = value_of desk (act clears late_noon 1 7 20 boss bank_desk)

banked : act deposits noon 1 7 20 boss desk ≡ ok bank_desk
unfolding act lookup
banked = refl

credited : act clears late_noon 1 7 20 boss bank_desk ≡ ok cleared_desk
unfolding act lookup put ◌+ℤ◌ ◌-ℤ◌ sum_by
credited = refl

act-Moves_example : (p : Payment) × Moves deposited 20 p desk bank_desk
act-Moves_example = act-Moves deposits noon 1 7 20 boss desk bank_desk banked

abbrev to_deposit : Call
to_deposit = record {
  action = deposits;
  now = noon;
  workspace_id = 1;
  invoice_id = 7;
  payment_id = 20;
  user = boss;
}

requests-Reaches_example : Reaches (some received) (cheque_at 20 (requests (to_deposit ∷ []) desk))
unfolding lookup
requests-Reaches_example = requests-Reaches (to_deposit ∷ []) 20 desk

waiting : lookup 20 bank_desk.payments ≡ some (record post_dated { pdc_status = some deposited })
unfolding act lookup put
waiting = refl

-- The bill has 600.00 open, and the cheque counts for 400.00.
act_balance_example :
    due_at 7 cleared_desk +ℤ counted_in 7 20 cleared_desk
    ≡ due_at 7 bank_desk +ℤ counted_in 7 20 bank_desk
act_balance_example =
    act_balance clears late_noon 1 7 20 boss bank_desk cleared_desk
      (record post_dated { pdc_status = some deposited }) credited waiting (omega arith) 7

loaded : load_invoice 1 7 desk ≡ some bill
unfolding load_invoice lookup
loaded = refl

found : lookup 20 desk.payments ≡ some post_dated
unfolding lookup
found = refl

on_time : is_early post_dated.pdc_date (utc_today noon) ≡ false
unfolding utc_today
on_time = refl

fits : post_dated.amount ≤ℤ balance_due 7 bill desk.payments
unfolding balance_due ◌+ℤ◌ ◌-ℤ◌ sum_by
fits = omega arith

deposit-clear_returns_example :
    (t : ReceivableStore) × (s' : ReceivableStore) × (deposit noon 1 7 20 boss desk ≡ ok t)
    × (clear late_noon 1 7 20 boss t ≡ ok s')
    × (cheque_at 20 s' ≡ some cleared)
deposit-clear_returns_example =
    deposit-clear_returns noon late_noon 1 7 20 boss desk bill post_dated loaded found refl refl
      refl refl refl on_time fits
