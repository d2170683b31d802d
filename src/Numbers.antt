-- ===== src/Numbers.antt =====
-- The number services: services/dn_number.py, credit_note_number.py, tax_debit_note_number.py,
-- stock_count_number.py and transfer_number.py, one pattern over five counter tables. The number of
-- a document is kept as the three parts of a text such as `ST-2026-0007`, which `text_of` writes. The
-- retry on a lost race to insert a counter has no part in a single session.
pub mod Gapless
use Prim.Native.String.{String, ◌++◌}
use rezorpay_pro.Common.{
  ℕ, zero, ◌/◌, ◌%◌, ltb, if◌then◌else◌, refl, Bool, ◌&&◌, Option, none, some, ◌≡◌, ◌↔◌, Table, Eq,
  ◌==◌, lookup, put, suc, arith, true,
}

-- The primary key of a counter.
pub record CounterKey : Type 0 where
  pub workspace_id : ℕ
  pub year : ℕ

abbrev pub same_counter : CounterKey → CounterKey → Bool
same_counter a b = a.workspace_id == b.workspace_id && a.year == b.year

pub same_counter_iff : (a b : CounterKey) → (same_counter a b ≡ true) ↔ (a ≡ b)
same_counter_iff a b = (λ h. ground arith, λ h. ground arith)

instance abbrev pub counter_eq : Eq CounterKey
counter_eq = record { beq = same_counter; beq_iff = same_counter_iff }

-- The last number that each counter gave.
abbrev pub Counters : Type 0
Counters = Table CounterKey ℕ

pub record DocumentNumber : Type 0 where
  pub prefix : String
  pub year : ℕ
  pub number : ℕ

-- Python's text of a number, and that of `:04d`. A number has no more digits than its value.
abbrev digit : ℕ → String
digit n =
    if n == 0
    then "0"
    else if n == 1
    then "1"
    else if n == 2
    then "2"
    else if n == 3
    then "3"
    else if n == 4
    then "4"
    else if n == 5
    then "5"
    else if n == 6
    then "6"
    else if n == 7
    then "7"
    else if n == 8
    then "8"
    else "9"

decimal_from : ℕ → ℕ → String
decimal_from zero n = digit n
decimal_from (suc fuel) n =
    let front = decimal_from fuel (n / 10) in if ltb n 10 then digit n else front ++ digit (n % 10)

unfoldable pub decimal : ℕ → String
unfolding decimal_from
decimal n = decimal_from n n

unfoldable pub padded : ℕ → String
unfolding decimal
padded n =
    (if ltb n 10 then "000" else if ltb n 100 then "00" else if ltb n 1000 then "0" else "")
    ++ decimal n

unfoldable pub text_of : DocumentNumber → String
unfolding decimal padded
text_of d = d.prefix ++ "-" ++ decimal d.year ++ "-" ++ padded d.number

text_of_seven : text_of (record { prefix = "ST"; year = 2026; number = 7 }) ≡ "ST-2026-0007"
unfolding text_of decimal padded decimal_from
text_of_seven = refl

abbrev pub or_zero : Option ℕ → ℕ
or_zero none = 0
or_zero (some n) = n

-- `last_number` of a counter, which starts at zero.
unfoldable pub last_number : CounterKey → Counters → ℕ
last_number key t = or_zero (lookup key t)

-- The body that the services share.
unfoldable pub next_number : String → CounterKey → Counters → DocumentNumber × Counters
unfolding last_number
next_number prefix key t =
    let last = suc (last_number key t) in
    (record { prefix = prefix; year = key.year; number = last }, put key last t)

-- `if year is None: year = datetime.now().year`
abbrev pub year_or : ℕ → Option ℕ → ℕ
year_or now none = now
year_or now (some year) = year

unfoldable pub generate_dn_number : ℕ → ℕ → Option ℕ → Counters → DocumentNumber × Counters
unfolding next_number
generate_dn_number now workspace_id year =
    next_number "DN" (record { workspace_id = workspace_id; year = year_or now year })

unfoldable pub generate_credit_note_number : ℕ → ℕ → Option ℕ → Counters → DocumentNumber × Counters
unfolding next_number
generate_credit_note_number now workspace_id year =
    next_number "CN" (record { workspace_id = workspace_id; year = year_or now year })

unfoldable pub generate_tax_debit_note_number :
    ℕ → ℕ → Option ℕ → Counters → DocumentNumber × Counters
unfolding next_number
generate_tax_debit_note_number now workspace_id year =
    next_number "TDN" (record { workspace_id = workspace_id; year = year_or now year })

unfoldable pub generate_count_number : ℕ → ℕ → Option ℕ → Counters → DocumentNumber × Counters
unfolding next_number
generate_count_number now workspace_id year =
    next_number "SC" (record { workspace_id = workspace_id; year = year_or now year })

unfoldable pub generate_transfer_number : ℕ → ℕ → Option ℕ → Counters → DocumentNumber × Counters
unfolding next_number
generate_transfer_number now workspace_id year =
    next_number "ST" (record { workspace_id = workspace_id; year = year_or now year })
