-- ===== src/Money/Lines.antt =====
-- What `apply_line_money` of services/line_money.py makes of a line.
use rezorpay_pro.Common.{
  ℤ, zero_ℤ, pos, true, false, ◌≡◌, refl, ◌*ℤ◌, ◌+ℤ◌, ◌-ℤ◌, ◌≤ℤ◌, ltb_ℤ, ok, raise_if-eq-ok,
  ok_injective, arith, int_laws, subst, inl, inr, Bool-cases,
}
use rezorpay_pro.Money.{Line, extended_of, discount_of, apply_line_money, fils_of_six}
use rezorpay_pro.Money.Rounding.{
  IsRounded, fils_of_four-IsRounded, fils_of_six-IsRounded, fils_of_six-nonneg, fils_of_four-nonneg,
  fils_of_six-le,
}

-- The CHECK constraints on what a request sets.
pub record IsPriced (line : Line) : Type 0 where
  pub quantity_nonneg : zero_ℤ ≤ℤ line.quantity
  pub unit_price_nonneg : zero_ℤ ≤ℤ line.unit_price
  pub tax_rate_nonneg : zero_ℤ ≤ℤ line.tax_rate
  pub discount_percent_nonneg : zero_ℤ ≤ℤ line.discount_percent
  pub discount_amount_nonneg : zero_ℤ ≤ℤ line.discount_amount

pub extended-nonneg : (line : Line) → IsPriced line → zero_ℤ ≤ℤ extended_of line
unfolding extended_of
extended-nonneg line p =
    fils_of_four-nonneg line.quantity line.unit_price p.quantity_nonneg p.unit_price_nonneg

discount-nonneg : (line : Line) → IsPriced line → zero_ℤ ≤ℤ discount_of line
unfolding discount_of
discount-nonneg line p = elim (Bool-cases (ltb_ℤ zero_ℤ line.discount_amount)) [
  | inl given ↦ rw given p.discount_amount_nonneg
  | inr absent ↦ rw absent (
      fils_of_six-nonneg (extended_of line) line.discount_percent (extended-nonneg line p)
        p.discount_percent_nonneg)
]

-- What a line is billed.
pub record IsBilled (line out : Line) : Type 0 where
  pub net_nonneg : zero_ℤ ≤ℤ out.line_net
  pub net_bounded : out.line_net ≤ℤ extended_of line
  pub extended : IsRounded 50 (extended_of line) line.quantity line.unit_price
  pub given :
      ltb_ℤ zero_ℤ line.discount_amount ≡ true
      → out.line_net +ℤ line.discount_amount ≡ extended_of line
  pub percent :
      ltb_ℤ zero_ℤ line.discount_amount ≡ false
      → IsRounded 5000 (discount_of line) (extended_of line) line.discount_percent
  pub tax : IsRounded 5000 out.tax_amount out.line_net line.tax_rate
  pub total : out.total_price ≡ out.line_net +ℤ out.tax_amount
  pub split : out.line_net +ℤ discount_of line ≡ extended_of line
  pub again : apply_line_money out ≡ ok out

abbrev pub billed : Line → Line
billed line =
    let net = extended_of line -ℤ discount_of line in
    let tax = fils_of_six (net *ℤ line.tax_rate) in
    record line { line_net = net; tax_amount = tax; total_price = net +ℤ tax }

again_eq :
    (line : Line)
    → ltb_ℤ (extended_of line) (discount_of line) ≡ false
    → apply_line_money (billed line) ≡ ok (billed line)
unfolding apply_line_money extended_of discount_of
again_eq line fits = rw fits refl

extended-IsRounded :
    (line : Line) → IsPriced line → IsRounded 50 (extended_of line) line.quantity line.unit_price
unfolding extended_of
extended-IsRounded line p =
    fils_of_four-IsRounded line.quantity line.unit_price p.quantity_nonneg p.unit_price_nonneg

back : (a b : ℤ) → a -ℤ b +ℤ b ≡ a
back a b = grind int_laws

given_net :
    (line : Line)
    → ltb_ℤ zero_ℤ line.discount_amount ≡ true
    → extended_of line -ℤ discount_of line +ℤ line.discount_amount ≡ extended_of line
unfolding discount_of
given_net line given = rw given (back (extended_of line) line.discount_amount)

percent-IsRounded :
    (line : Line)
    → IsPriced line
    → ltb_ℤ zero_ℤ line.discount_amount ≡ false
    → IsRounded 5000 (discount_of line) (extended_of line) line.discount_percent
unfolding discount_of
percent-IsRounded line p absent = rw absent (
    fils_of_six-IsRounded (extended_of line) line.discount_percent (extended-nonneg line p)
      p.discount_percent_nonneg)

billed-IsBilled :
    (line : Line)
    → ltb_ℤ (extended_of line) (discount_of line) ≡ false
    → IsPriced line
    → IsBilled line (billed line)
billed-IsBilled line fits p =
    let net_nonneg : zero_ℤ ≤ℤ extended_of line -ℤ discount_of line = grind int_laws in
    record {
      net_nonneg = net_nonneg;
      net_bounded = omega (int_laws, discount-nonneg line p);
      extended = extended-IsRounded line p;
      given = given_net line;
      percent = percent-IsRounded line p;
      tax =
          fils_of_six-IsRounded (extended_of line -ℤ discount_of line) line.tax_rate net_nonneg
            p.tax_rate_nonneg;
      total = refl;
      split = omega int_laws;
      again = again_eq line fits;
    }

-- A line of non-negative entries that is not refused is billed a net amount between zero and the
-- extended amount, which is the net amount and the discount together, a tax, and the sum of net amount
-- and tax. The extended amount is the quantity times the price, the discount, unless an amount is
-- given, the percentage of the extended amount, and the tax the rate of the net amount, each the nearest
-- to two decimals with ties up; and to compute the line again changes nothing.
pub apply_line_money-IsBilled :
    (line out : Line) → apply_line_money line ≡ ok out → IsPriced line → IsBilled line out
unfolding apply_line_money
apply_line_money-IsBilled line out h p =
    let (fits, h₁) = raise_if-eq-ok (ltb_ℤ (extended_of line) (discount_of line)) _ _ h in
    subst (IsBilled line) (ok_injective h₁) (billed-IsBilled line fits p)

percent-fits :
    (line : Line)
    → IsPriced line
    → ltb_ℤ zero_ℤ line.discount_amount ≡ false
    → line.discount_percent ≤ℤ pos 10_000
    → ltb_ℤ (extended_of line) (discount_of line) ≡ false
unfolding discount_of
percent-fits line p none_given percent =
    let le =
      fils_of_six-le (extended_of line) line.discount_percent (extended-nonneg line p)
        p.discount_percent_nonneg percent in
    rw none_given (ground arith)

-- A line of non-negative entries with no discount amount and a discount of at most a hundred percent
-- is never refused.
pub apply_line_money_total :
    (line : Line)
    → IsPriced line
    → ltb_ℤ zero_ℤ line.discount_amount ≡ false
    → line.discount_percent ≤ℤ pos 10_000
    → (out : Line) × (apply_line_money line ≡ ok out)
unfolding apply_line_money
apply_line_money_total line p none_given percent =
    (billed line, rw (percent-fits line p none_given percent) refl)
