-- ===== src/Credit/Ageing.antt =====
-- The ageing report of services/credit_control_service.py against the exposure and the age of the
-- oldest debt.
use rezorpay_pro.Common.{
  ℕ, ℤ, zero_ℤ, Bool, ◌&&◌, ◌||◌, Option, none, some, List, [], ◌∷◌, Table, ◌≡◌, ltb, leb, ◌+◌, ◌-◌,
  ◌-ℤ◌, ◌+ℤ◌, if◌then◌else◌, sum, any, arith, int_laws, refl, inl, inr, Bool-cases, ap, ◌∙◌,
}
use rezorpay_pro.Receivable.{Payment}
use rezorpay_pro.Credit.{
  Open, due_of, exposure, is_late, earlier_of, first_late, days_since, oldest_overdue_days, Bucket,
  current, days_1_30, days_31_60, days_61_90, days_90_plus, same_bucket, Buckets, add_to, bucket_of,
  fill, bucket_key, aging_buckets, is_over,
}

-- The due dates of a bucket, as seen today: not past, or past by so many days.
abbrev pub falls_in : Bucket → ℕ → ℕ → Bool
falls_in current today due = leb today due
falls_in days_1_30 today due = leb (due + 1) today && leb today (due + 30)
falls_in days_31_60 today due = leb (due + 31) today && leb today (due + 60)
falls_in days_61_90 today due = leb (due + 61) today && leb today (due + 90)
falls_in days_90_plus today due = leb (due + 91) today

bucket_of-falls_in :
    (b : Bucket) (today : ℕ) (row : Open)
    → same_bucket (bucket_of today row) b ≡ falls_in b today row.1.due_date
unfolding bucket_of bucket_key ◌-ℤ◌
bucket_of-falls_in current today row = ground arith
bucket_of-falls_in days_1_30 today row = ground arith
bucket_of-falls_in days_31_60 today row = ground arith
bucket_of-falls_in days_61_90 today row = ground arith
bucket_of-falls_in days_90_plus today row = ground arith

-- What an invoice adds to a bucket.
abbrev pub share : Bucket → Table ℕ Payment → ℕ → Open → ℤ
share b payments today row = if falls_in b today row.1.due_date then due_of payments row else zero_ℤ

assoc_ℤ : (a b c : ℤ) → a +ℤ b +ℤ c ≡ a +ℤ (b +ℤ c)
assoc_ℤ a b c = grind int_laws

zero_left : (a : ℤ) → zero_ℤ +ℤ a ≡ a
zero_left a = grind int_laws

add_to-share :
    (c b : Bucket) (buckets : Buckets) (d : ℤ)
    → add_to c d buckets b ≡ buckets b +ℤ (if same_bucket c b then d else zero_ℤ)
unfolding add_to
add_to-share c b buckets d = elim (Bool-cases (same_bucket c b)) [
  | inl same ↦ rw same
  | inr other ↦ rw other (grind int_laws)
]

fill-share :
    (b : Bucket) (rows : List Open) (t : Table ℕ Payment) (today : ℕ) (buckets : Buckets)
    → fill rows t today buckets b ≡ buckets b +ℤ sum (share b t today) rows
unfolding fill sum
fill-share b [] t today buckets = grind int_laws
fill-share b (row ∷ rows) t today buckets =
    rw
      (
        fill-share b rows t today (add_to (bucket_of today row) (due_of t row) buckets),
        add_to-share (bucket_of today row) b buckets (due_of t row),
        bucket_of-falls_in b today row,
        assoc_ℤ,
      )
      refl

abbrev pub total : Buckets → ℤ
total b = b current +ℤ b days_1_30 +ℤ b days_31_60 +ℤ b days_61_90 +ℤ b days_90_plus

total-add_to :
    (c : Bucket) (buckets : Buckets) (d : ℤ) → total (add_to c d buckets) ≡ total buckets +ℤ d
unfolding add_to
total-add_to current buckets d = grind int_laws
total-add_to days_1_30 buckets d = grind int_laws
total-add_to days_31_60 buckets d = grind int_laws
total-add_to days_61_90 buckets d = grind int_laws
total-add_to days_90_plus buckets d = grind int_laws

total-fill :
    (rows : List Open) (t : Table ℕ Payment) (today : ℕ) (buckets : Buckets)
    → total (fill rows t today buckets) ≡ total buckets +ℤ sum (due_of t) rows
unfolding fill sum
total-fill [] t today buckets = grind int_laws
total-fill (row ∷ rows) t today buckets =
    total-fill rows t today (add_to (bucket_of today row) (due_of t row) buckets)
    ∙ ap (λ x. x +ℤ sum (due_of t) rows) (total-add_to (bucket_of today row) buckets (due_of t row))
    ∙ assoc_ℤ (total buckets) (due_of t row) (sum (due_of t) rows)

-- Each bucket is the sum of the balances of the invoices that are not past their due date, or past it by
-- 1 to 30, 31 to 60, 61 to 90 or at least 91 days, and the five together are the exposure.
pub aging_buckets-eq :
    (rows : List Open) (t : Table ℕ Payment) (today : ℕ)
    → ((b : Bucket) → aging_buckets rows t today b ≡ sum (share b t today) rows)
      × (total (aging_buckets rows t today) ≡ exposure rows t)
unfolding aging_buckets exposure ◌+ℤ◌ sum
aging_buckets-eq rows t today = (
  λ b. fill-share b rows t today (λ c. zero_ℤ) ∙ zero_left (sum (share b t today) rows),
  total-fill rows t today (λ c. zero_ℤ) ∙ zero_left (sum (due_of t) rows),
)

-- Late by more than so many days.
abbrev pub is_later : Table ℕ Payment → ℕ → ℕ → Open → Bool
is_later t today days row = is_late t today row && ltb days (today - row.1.due_date)

is_over_earlier :
    (days today date : ℕ) (rest : Option ℕ)
    → is_over (days_since today (some (earlier_of date rest))) days
      ≡ (ltb days (today - date) || is_over (days_since today rest) days)
is_over_earlier days today date none = ground arith
is_over_earlier days today date (some other) = ground arith

-- The oldest overdue invoice is over a number of days when some late invoice is.
pub is_over-oldest :
    (rows : List Open) (t : Table ℕ Payment) (today days : ℕ)
    → is_over (oldest_overdue_days rows t today) days ≡ any (is_later t today days) rows
unfolding oldest_overdue_days first_late any
is_over-oldest [] t today days = refl
is_over-oldest (row ∷ rows) t today days = elim (Bool-cases (is_late t today row)) [
  | inl late ↦ rw (
    late,
    is_over_earlier days today row.1.due_date (first_late rows t today),
    is_over-oldest rows t today days,
  )
  | inr punctual ↦ rw (punctual, is_over-oldest rows t today days)
]
