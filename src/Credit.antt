-- ===== src/Credit.antt =====
-- The decisions of services/credit_control_service.py: exposure, age and credit status. Its `money`
-- rounds sums of amounts that have two decimals, and leaves them as they are.
pub mod Ageing
pub mod Decision
pub mod Evaluate
pub mod Restates
pub mod Overdue
pub mod Standing
use rezorpay_pro.Common.{
  ℕ, ℤ, zero_ℤ, pos, Bool, true, false, ◌&&◌, not, Option, none, some, List, [], ◌∷◌, Table, ltb,
  leb, ltb_ℤ, leb_ℤ, ◌-ℤ◌, ◌+ℤ◌, ◌-◌, ◌/◌, ◌==◌, if◌then◌else◌, select, sum, nat_eq, Result, http,
  validation_error, raise_if, ⊤,
}
use rezorpay_pro.Receivable.{
  Invoice, InvoiceStatus, draft, sent, partially_paid, paid, overdue, Client, Workspace,
  CreditStatus, active, warning, hold, ReceivableStore, Payment, balance_due,
}

abbrev pub is_ar : InvoiceStatus → Bool
is_ar sent = true
is_ar partially_paid = true
is_ar overdue = true
is_ar _ = false

abbrev pub is_flip : InvoiceStatus → Bool
is_flip sent = true
is_flip partially_paid = true
is_flip _ = false

-- The day of a time.
unfoldable pub utc_today : ℕ → ℕ
utc_today now = now / 86_400

abbrev pub effective_limit : Client → Workspace → ℤ
effective_limit client workspace = elim client.credit_limit [
  | none ↦ workspace.credit_limit_default
  | some limit ↦ limit
]

abbrev pub is_over : Option ℕ → ℕ → Bool
is_over none days = false
is_over (some oldest) days = ltb days oldest

unfoldable pub decide_status : ℤ → ℤ → Option ℕ → ℕ → ℕ → CreditStatus
decide_status exposure limit oldest_overdue_days warning_days hold_days =
    if ltb_ℤ limit exposure
    then hold
    else if is_over oldest_overdue_days hold_days
    then hold
    else if is_over oldest_overdue_days warning_days
    then warning
    else active

unfoldable pub assert_warning_not_after_hold : ℕ → ℕ → Result ⊤
assert_warning_not_after_hold warning_days hold_days =
    raise_if (ltb hold_days warning_days) (http 422 validation_error)

-- An open invoice under its id, as a query returns it.
abbrev pub Open : Type 0
Open = ℕ × Invoice

abbrev pub due_of : Table ℕ Payment → Open → ℤ
due_of payments row = balance_due row.0 row.1 payments

unfoldable pub exposure : List Open → Table ℕ Payment → ℤ
exposure invoices payments = sum (due_of payments) invoices

-- Due before today, with something open.
abbrev pub is_late : Table ℕ Payment → ℕ → Open → Bool
is_late payments today row = ltb row.1.due_date today && ltb_ℤ zero_ℤ (due_of payments row)

abbrev pub earlier_of : ℕ → Option ℕ → ℕ
earlier_of date none = date
earlier_of date (some other) = if ltb other date then other else date

-- `min` of the due dates of the late invoices.
unfoldable pub first_late : List Open → Table ℕ Payment → ℕ → Option ℕ
first_late [] payments today = none
first_late (row ∷ rows) payments today =
    let rest = first_late rows payments today in
    if is_late payments today row then some (earlier_of row.1.due_date rest) else rest

abbrev pub days_since : ℕ → Option ℕ → Option ℕ
days_since today none = none
days_since today (some date) = some (today - date)

unfoldable pub oldest_overdue_days : List Open → Table ℕ Payment → ℕ → Option ℕ
unfolding first_late
oldest_overdue_days invoices payments today = days_since today (first_late invoices payments today)

pub data Bucket : Type 0 where
  current days_1_30 days_31_60 days_61_90 days_90_plus : Bucket

unfoldable pub bucket_key : ℤ → Bucket
bucket_key days_overdue =
    if leb_ℤ days_overdue zero_ℤ
    then current
    else if leb_ℤ days_overdue (pos 30)
    then days_1_30
    else if leb_ℤ days_overdue (pos 60)
    then days_31_60
    else if leb_ℤ days_overdue (pos 90)
    then days_61_90
    else days_90_plus

abbrev pub same_bucket : Bucket → Bucket → Bool
same_bucket current current = true
same_bucket days_1_30 days_1_30 = true
same_bucket days_31_60 days_31_60 = true
same_bucket days_61_90 days_61_90 = true
same_bucket days_90_plus days_90_plus = true
same_bucket _ _ = false

-- The dictionary of the buckets, under its five keys.
abbrev pub Buckets : Type 0
Buckets = Bucket → ℤ

unfoldable pub add_to : Bucket → ℤ → Buckets → Buckets
add_to key amount buckets b = if same_bucket key b then buckets b +ℤ amount else buckets b

unfoldable pub bucket_of : ℕ → Open → Bucket
unfolding bucket_key
bucket_of today row = bucket_key (pos today -ℤ pos row.1.due_date)

fill : List Open → Table ℕ Payment → ℕ → Buckets → Buckets
unfolding add_to bucket_of
fill [] payments today buckets = buckets
fill (row ∷ rows) payments today buckets =
    fill rows payments today (add_to (bucket_of today row) (due_of payments row) buckets)

unfoldable pub aging_buckets : List Open → Table ℕ Payment → ℕ → Buckets
unfolding fill
aging_buckets invoices payments today = fill invoices payments today (λ b. zero_ℤ)

unfoldable pub should_mark_overdue : ℕ → Invoice → Table ℕ Payment → ℕ → Bool
should_mark_overdue id invoice payments today =
    not invoice.is_deleted
    && is_ar invoice.status
    && ltb invoice.due_date today
    && ltb_ℤ zero_ℤ (balance_due id invoice payments)

-- `open_ar_invoices`.
abbrev pub is_open_of : ℕ → ℕ → Invoice → Bool
is_open_of workspace_id client_id invoice =
    (invoice.workspace_id == workspace_id)
    && (invoice.client_id == client_id)
    && not invoice.is_deleted
    && is_ar invoice.status

unfoldable pub open_ar_invoices : ℕ → ℕ → ReceivableStore → List Open
open_ar_invoices workspace_id client_id s = select (is_open_of workspace_id client_id) s.invoices
