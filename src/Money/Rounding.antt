-- ===== src/Money/Rounding.antt =====
-- Rounding half up, as `money` of services/line_money.py does it.
use rezorpay_pro.Common.{
  ℕ, ℤ, zero_ℤ, pos, negsuc, suc, ◌+◌, ◌*◌, ◌/◌, ◌≤◌, ◌<◌, ◌≡◌, refl, ◌*ℤ◌, ◌-ℤ◌, ◌≤ℤ◌, pos_part,
  arith,
}
use rezorpay_pro.Money.{fils_of_four, fils_of_six}

-- The nearest: a hundred of it lies within fifty of the amount, and a positive tie goes up, a
-- negative one down.
pub fils_of_four_nearest :
    (n : ℕ)
    → ((r : ℕ) × (fils_of_four (pos n) ≡ pos r) × (r * 100 ≤ n + 50) × (n + 50 < r * 100 + 100))
      × (fils_of_four (negsuc n) ≡ zero_ℤ -ℤ fils_of_four (pos (suc n)))
unfolding fils_of_four
fils_of_four_nearest n = (((n + 50) / 100, refl, omega arith, omega arith), refl)

pub fils_of_six-nonneg : (a b : ℤ) → zero_ℤ ≤ℤ a → zero_ℤ ≤ℤ b → zero_ℤ ≤ℤ fils_of_six (a *ℤ b)
unfolding fils_of_six ◌*ℤ◌
fils_of_six-nonneg (pos a) (pos b) p q = omega arith
fils_of_six-nonneg (pos a) (negsuc b) p q = absurd (omega arith)
fils_of_six-nonneg (negsuc a) b p q = absurd (omega arith)

pub fils_of_four-nonneg : (a b : ℤ) → zero_ℤ ≤ℤ a → zero_ℤ ≤ℤ b → zero_ℤ ≤ℤ fils_of_four (a *ℤ b)
unfolding fils_of_four ◌*ℤ◌
fils_of_four-nonneg (pos a) (pos b) p q = omega arith
fils_of_four-nonneg (pos a) (negsuc b) p q = absurd (omega arith)
fils_of_four-nonneg (negsuc a) b p q = absurd (omega arith)

-- A share of at most a hundred percent is no more than the whole.
pub fils_of_six-le :
    (a b : ℤ) → zero_ℤ ≤ℤ a → zero_ℤ ≤ℤ b → b ≤ℤ pos 10_000 → fils_of_six (a *ℤ b) ≤ℤ a
unfolding fils_of_six ◌*ℤ◌
fils_of_six-le (pos a) (pos b) p q h = grind arith
fils_of_six-le (pos a) (negsuc b) p q h = absurd (omega arith)
fils_of_six-le (negsuc a) b p q h = absurd (omega arith)

-- The product of two amounts that are not negative, divided by twice `half` and rounded half up.
abbrev pub IsRounded : ℕ → ℤ → ℤ → ℤ → Type 0
IsRounded half r a b =
    (zero_ℤ ≤ℤ r)
    × (pos_part r * (half + half) ≤ pos_part a * pos_part b + half)
    × (pos_part a * pos_part b < pos_part r * (half + half) + half)

pub fils_of_four-IsRounded :
    (a b : ℤ) → zero_ℤ ≤ℤ a → zero_ℤ ≤ℤ b → IsRounded 50 (fils_of_four (a *ℤ b)) a b
unfolding fils_of_four ◌*ℤ◌
fils_of_four-IsRounded (pos a) (pos b) p q = (omega arith, omega arith, omega arith)
fils_of_four-IsRounded (pos a) (negsuc b) p q = absurd (omega arith)
fils_of_four-IsRounded (negsuc a) b p q = absurd (omega arith)

pub fils_of_six-IsRounded :
    (a b : ℤ) → zero_ℤ ≤ℤ a → zero_ℤ ≤ℤ b → IsRounded 5000 (fils_of_six (a *ℤ b)) a b
unfolding fils_of_six ◌*ℤ◌
fils_of_six-IsRounded (pos a) (pos b) p q = (omega arith, omega arith, omega arith)
fils_of_six-IsRounded (pos a) (negsuc b) p q = absurd (omega arith)
fils_of_six-IsRounded (negsuc a) b p q = absurd (omega arith)
