-- ===== src/Credit/Decision.antt =====
-- `decide_status` of services/credit_control_service.py.
use rezorpay_pro.Common.{
  ℕ, ℤ, true, ◌||◌, Option, none, some, List, Table, ◌≡◌, ◌↔◌, ◌≤◌, ◌≤ℤ◌, ltb_ℤ, ⊤, any, arith,
}
use rezorpay_pro.Receivable.{CreditStatus, active, warning, hold, Payment}
use rezorpay_pro.Credit.{Open, decide_status, is_over, oldest_overdue_days, exposure}
use rezorpay_pro.Credit.Ageing.{is_later, is_over-oldest}

-- How severe a status is.
abbrev pub rank : CreditStatus → ℕ
rank active = 0
rank warning = 1
rank hold = 2

-- The age of the oldest debt, where none is the youngest.
abbrev pub OlderEq : Option ℕ → Option ℕ → Type 0
OlderEq none o = ⊤
OlderEq (some a) none = ⊥
OlderEq (some a) (some b) = a ≤ b

over_mono :
    (o p : Option ℕ) (d e : ℕ) → OlderEq o p → e ≤ d → is_over o d ≡ true → is_over p e ≡ true
over_mono none p d e q r h = cc
over_mono (some a) none d e q r h = absurd q
over_mono (some a) (some b) d e q r h = ground arith

-- More exposure, a smaller limit, an older debt and fewer days of grace never make a client's status
-- milder.
pub decide_status_mono :
    (e f l m : ℤ) (o p : Option ℕ) (w v h g : ℕ)
    → e ≤ℤ f
    → m ≤ℤ l
    → OlderEq o p
    → v ≤ w
    → g ≤ h
    → rank (decide_status e l o w h) ≤ rank (decide_status f m p v g)
unfolding decide_status
decide_status_mono e f l m o p w v h g more less older warns holds =
    grind (arith, over_mono o p w v older warns, over_mono o p h g older holds)

hold_iff :
    (e l : ℤ) (o : Option ℕ) (w h : ℕ)
    → (decide_status e l o w h ≡ hold) ↔ ((ltb_ℤ l e || is_over o h) ≡ true)
unfolding decide_status
hold_iff e l o w h = grind arith

-- On the open invoices of a client the decision is HOLD exactly where the exposure exceeds the limit or
-- some invoice with a balance is due longer than the days of the hold.
pub decide_status-hold :
    (rows : List Open) (t : Table ℕ Payment) (today : ℕ) (limit : ℤ) (w h : ℕ)
    → (decide_status (exposure rows t) limit (oldest_overdue_days rows t today) w h ≡ hold)
      ↔ ((ltb_ℤ limit (exposure rows t) || any (is_later t today h) rows) ≡ true)
decide_status-hold rows t today limit w h =
    rw (← is_over-oldest rows t today h)
      (hold_iff (exposure rows t) limit (oldest_overdue_days rows t today) w h)
