-- ===== src/Tests/MoneyRuns.antt =====
-- A line of the line money.
use rezorpay_pro.Common.{pos, zero_ℤ, ◌≡◌, refl, ok, arith, ◌-ℤ◌, ◌+ℤ◌, err, http, validation_error}
use rezorpay_pro.Money.{Line, apply_line_money, xor_discounts}
use rezorpay_pro.Money.Lines.{IsPriced, IsBilled, apply_line_money-IsBilled}

-- Three pieces at 33.35 with 12.5 % off and 5 % tax.
abbrev entry : Line
entry = record {
  quantity = pos 300;
  unit_price = pos 3335;
  tax_rate = pos 500;
  discount_percent = pos 1250;
  discount_amount = zero_ℤ;
  line_net = zero_ℤ;
  tax_amount = zero_ℤ;
  total_price = zero_ℤ;
}

abbrev billed_entry : Line
billed_entry = record entry { line_net = pos 8754; tax_amount = pos 438; total_price = pos 9192 }

bills : apply_line_money entry ≡ ok billed_entry
unfolding apply_line_money ◌-ℤ◌ ◌+ℤ◌
bills = refl

entry-IsPriced : IsPriced entry
entry-IsPriced = record {
  quantity_nonneg = omega arith;
  unit_price_nonneg = omega arith;
  tax_rate_nonneg = omega arith;
  discount_percent_nonneg = omega arith;
  discount_amount_nonneg = omega arith;
}

too_dear :
    apply_line_money (record entry { discount_amount = pos 10_006 })
    ≡ err (http 400 validation_error)
unfolding apply_line_money ◌-ℤ◌
too_dear = refl

both : xor_discounts (pos 1) (pos 1) ≡ err (http 422 validation_error)
unfolding xor_discounts
both = refl

apply_line_money-IsBilled_example : IsBilled entry billed_entry
apply_line_money-IsBilled_example =
    apply_line_money-IsBilled entry billed_entry bills entry-IsPriced
