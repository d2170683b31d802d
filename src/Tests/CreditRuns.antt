-- ===== src/Tests/CreditRuns.antt =====
-- Credit control of the small ledger on day 195, when its bill is 95 days late.
use rezorpay_pro.Common.{
  zero_ℤ, pos, some, List, [], ◌∷◌, true, false, ◌||◌, ◌&&◌, ◌≡◌, ◌↔◌, refl, nat_eq, lookup, put,
  ◌+ℤ◌, ◌-ℤ◌, sum_by, sum, select, any, ltb_ℤ, ◌≤ℤ◌,
}
use rezorpay_pro.Receivable.{overdue, paid, hold, CreditEventReason, balance_due, raw_balance}
use rezorpay_pro.Credit.{
  Open, Bucket, aging_buckets, exposure, oldest_overdue_days, decide_status, utc_today,
  days_90_plus,
}
use rezorpay_pro.Credit.Evaluate.{apply_overdue_client, evaluate, is_past_due}
use rezorpay_pro.Credit.Ageing.{aging_buckets-eq, share, total, is_later}
use rezorpay_pro.Credit.Decision.{decide_status-hold}
use rezorpay_pro.Credit.Overdue.{apply_overdue_client_complete}
use rezorpay_pro.Credit.Standing.{Evaluated, evaluate-Evaluated}
use rezorpay_pro.Invoicing.{determine_status_from_balance}
use rezorpay_pro.Invoicing.Settle.{determine_status_paid}
use rezorpay_pro.Tests.Desk.{desk, customer, office, bill, late_noon}

abbrev rows : List Open
rows = (7, bill) ∷ []

aging_buckets-eq_example :
    ((b : Bucket) → aging_buckets rows desk.payments 195 b ≡ sum (share b desk.payments 195) rows)
    × (total (aging_buckets rows desk.payments 195) ≡ exposure rows desk.payments)
aging_buckets-eq_example = aging_buckets-eq rows desk.payments 195

oldest_bucket : aging_buckets rows desk.payments 195 days_90_plus ≡ pos 100_000
unfolding aging_buckets ◌+ℤ◌ ◌-ℤ◌ sum_by balance_due
oldest_bucket = refl

decide_status-hold_example :
    (decide_status
        (exposure rows desk.payments)
        (pos 500_000)
        (oldest_overdue_days rows desk.payments 195)
        30
        90
      ≡ hold)
    ↔ ((ltb_ℤ (pos 500_000) (exposure rows desk.payments)
          || any (is_later desk.payments 195 90) rows)
        ≡ true)
decide_status-hold_example = decide_status-hold rows desk.payments 195 (pos 500_000) 30 90

flipped :
    lookup 7 (apply_overdue_client late_noon 1 3 desk).1.invoices
    ≡ some (record bill { status = overdue })
unfolding apply_overdue_client lookup put select ◌+ℤ◌ ◌-ℤ◌ sum_by balance_due
flipped = refl

apply_overdue_client_complete_example :
    (is_past_due (utc_today late_noon) 1 (some 3) (record bill { status = overdue })
      && ltb_ℤ zero_ℤ (balance_due 7 (record bill { status = overdue }) desk.payments))
    ≡ false
apply_overdue_client_complete_example =
    apply_overdue_client_complete late_noon 1 3 desk 7 (record bill { status = overdue }) flipped

known : lookup 3 desk.clients ≡ some customer
unfolding lookup
known = refl

-- The client is held.
evaluate-Evaluated_example :
    Evaluated late_noon 3 customer 1 office desk
      (evaluate late_noon 3 customer 1 office (some 9) CreditEventReason.evaluate desk).1
      (evaluate late_noon 3 customer 1 office (some 9) CreditEventReason.evaluate desk).0
evaluate-Evaluated_example =
    evaluate-Evaluated late_noon 3 customer 1 office (some 9) CreditEventReason.evaluate desk known

customer_held :
    (evaluate late_noon 3 customer 1 office (some 9) CreditEventReason.evaluate desk).0.status
    ≡ hold
unfolding evaluate lookup put select ◌+ℤ◌ ◌-ℤ◌ sum_by sum balance_due
customer_held = refl

determine_status_paid_example :
    (determine_status_from_balance 7 bill desk.payments 195 ≡ paid)
    ↔ (raw_balance 7 bill desk.payments ≤ℤ zero_ℤ)
determine_status_paid_example = determine_status_paid 7 bill desk.payments 195 refl
