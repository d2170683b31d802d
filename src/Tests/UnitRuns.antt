-- ===== src/Tests/UnitRuns.antt =====
-- Boxes of ten and cartons of fifty, with fractions for decimals.
use rezorpay_pro.Common.{ℕ, ◌*◌, Bool, some, none, List, [], ◌∷◌, ◌≡◌, refl, ltb, lookup, put}
use rezorpay_pro.Units.{UomConversion, resolve_factor, valid_factors, convert_quantity}
use rezorpay_pro.Units.Search.{direct, resolve_factor-direct}

abbrev Fraction : Type 0
Fraction = ℕ × ℕ

abbrev whole : Fraction
whole = (1, 1)

abbrev times : Fraction → Fraction → Fraction
times (a, b) (c, d) = (a * c, b * d)

abbrev over : Fraction → Fraction → Fraction
over (a, b) (c, d) = (a * d, b * c)

abbrev is_positive : Fraction → Bool
is_positive (a, b) = ltb 0 a

-- Unit 1 is the piece, 2 the box, 3 the carton; the row of unit 4 is unusable.
abbrev packs : List (UomConversion Fraction)
packs =
    record { to_uom_id = 2; conversion_factor = some (10, 1) }
    ∷ record { to_uom_id = 4; conversion_factor = some (0, 1) }
    ∷ record { to_uom_id = 3; conversion_factor = some (50, 1) }
    ∷ []

box_to_carton : resolve_factor whole times over is_positive 2 1 2 3 packs ≡ some (10, 50)
unfolding resolve_factor lookup put
box_to_carton = refl

no_path : resolve_factor whole times over is_positive 9 1 2 4 packs ≡ none
unfolding resolve_factor lookup put
no_path = refl

three_boxes : convert_quantity whole times over is_positive 2 1 2 1 (3, 1) packs ≡ some (30, 1)
unfolding convert_quantity lookup put
three_boxes = refl

resolve_factor-direct_example :
    resolve_factor whole times over is_positive 2 1 2 3 packs
    ≡ direct whole times over 1 2 3 (valid_factors is_positive packs)
resolve_factor-direct_example = resolve_factor-direct whole times over is_positive 0 1 2 3 packs
