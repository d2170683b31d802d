-- ===== src/Money.antt =====
-- services/line_money.py: the money of an invoice or quotation line, in hundredths (fils). The
-- quantity, price, rate and discounts of a line have two decimals, as in its columns.
pub mod Rounding
pub mod Lines
use rezorpay_pro.Common.{
  ℕ, ℤ, zero_ℤ, pos, negsuc, suc, ◌+◌, ◌/◌, ◌*ℤ◌, ◌+ℤ◌, ◌-ℤ◌, ltb_ℤ, Bool, ◌&&◌, if◌then◌else◌, ⊤,
  Result, ok, http, validation_error, ◌>>=◌, ◌>>◌, raise_if,
}

-- `quantize(0.01, ROUND_HALF_UP)` of an amount with four decimals, and of one with six: a tie goes
-- away from zero.
unfoldable pub fils_of_four : ℤ → ℤ
fils_of_four (pos n) = pos ((n + 50) / 100)
fils_of_four (negsuc n) = zero_ℤ -ℤ pos ((suc n + 50) / 100)

unfoldable pub fils_of_six : ℤ → ℤ
fils_of_six (pos n) = pos ((n + 5000) / 10_000)
fils_of_six (negsuc n) = zero_ℤ -ℤ pos ((suc n + 5000) / 10_000)

-- The attributes of a line that `apply_line_money` reads and sets.
pub record Line : Type 0 where
  pub quantity : ℤ
  pub unit_price : ℤ
  pub tax_rate : ℤ
  pub discount_percent : ℤ
  pub discount_amount : ℤ
  pub line_net : ℤ
  pub tax_amount : ℤ
  pub total_price : ℤ

unfoldable pub extended_of : Line → ℤ
unfolding fils_of_four ◌*ℤ◌
extended_of line = fils_of_four (line.quantity *ℤ line.unit_price)

-- The amount where it is given, else the percentage; two decimals stay as they are.
unfoldable pub discount_of : Line → ℤ
unfolding fils_of_six extended_of ◌*ℤ◌
discount_of line =
    if ltb_ℤ zero_ℤ line.discount_amount
    then line.discount_amount
    else fils_of_six (extended_of line *ℤ line.discount_percent)

unfoldable pub apply_line_money : Line → Result Line
unfolding extended_of discount_of fils_of_six
apply_line_money line = do
  raise_if (ltb_ℤ (extended_of line) (discount_of line)) (http 400 validation_error)
  let net = extended_of line -ℤ discount_of line
  let tax = fils_of_six (net *ℤ line.tax_rate)
  ok (record line { line_net = net; tax_amount = tax; total_price = net +ℤ tax })

unfoldable pub xor_discounts : ℤ → ℤ → Result ⊤
xor_discounts discount_percent discount_amount =
    raise_if (ltb_ℤ zero_ℤ discount_percent && ltb_ℤ zero_ℤ discount_amount)
      (http 422 validation_error)
