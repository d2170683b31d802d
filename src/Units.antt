-- ===== src/Units.antt =====
-- services/uom_conversion_service.py: the factor between two units of a product, found by a search in
-- the graph of its conversions. Python's `Decimal` is a parameter: a type with a one, a product, a
-- quotient and a test of the sign, of which nothing is supposed.
pub mod Search
use rezorpay_pro.Common.{
  ℕ, zero, suc, Bool, true, false, ◌||◌, Option, none, some, List, [], ◌∷◌, ◌++◌, Table, ◌==◌,
  if◌then◌else◌, lookup, put, nat_eq,
}

-- A conversion row, from a unit to the base unit of its product.
pub record UomConversion (D : Type 0) : Type 0 where
  pub to_uom_id : ℕ
  pub conversion_factor : Option D

-- A scan of neighbours: the factor of the wanted unit, or the units visited and the queue.
pub data Scan (D : Type 0) : Type 0 where
  hit : D → Scan D
  go_on : List ℕ → List (ℕ × D) → Scan D

unfoldable pub is_visited : ℕ → List ℕ → Bool
is_visited n [] = false
is_visited n (m ∷ ms) = (m == n) || is_visited n ms

module _ {D : Type 0} (is_positive : D → Bool) where
  abbrev pub add_factor : UomConversion D → Table ℕ D → Table ℕ D
  add_factor row factors = elim row.conversion_factor [
    | none ↦ factors
    | some factor ↦ if is_positive factor then put row.to_uom_id factor factors else factors
  ]

  unfoldable pub valid_from : List (UomConversion D) → Table ℕ D → Table ℕ D
  valid_from [] factors = factors
  valid_from (row ∷ rows) factors = valid_from rows (add_factor row factors)

  -- `_valid_factors`.
  unfoldable pub valid_factors : List (UomConversion D) → Table ℕ D
  unfolding valid_from
  valid_factors rows = valid_from rows []

module _ {D : Type 0} (one : D) (times over : D → D → D) where
  unfoldable pub from_base : Table ℕ D → List (ℕ × D)
  from_base [] = []
  from_base ((id, factor) ∷ factors) = (id, over one factor) ∷ from_base factors

  -- `_neighbors`.
  unfoldable pub neighbors : ℕ → Table ℕ D → ℕ → List (ℕ × D)
  unfolding from_base
  neighbors base_uom_id factors node =
      if node == base_uom_id
      then from_base factors
      else elim (lookup node factors) [ none ↦ [] | some factor ↦ (base_uom_id, factor) ∷ [] ]

  -- The inner loop.
  unfoldable pub scan : ℕ → D → List (ℕ × D) → List ℕ → List (ℕ × D) → Scan D
  unfolding is_visited
  scan to_uom_id accumulated [] visited queue = go_on visited queue
  scan to_uom_id accumulated ((neighbor, leg) ∷ rest) visited queue =
      elim (is_visited neighbor visited) [
        | true ↦ scan to_uom_id accumulated rest visited queue
        | false ↦ elim (neighbor == to_uom_id) [
          | true ↦ hit (times accumulated leg)
          | false ↦
              scan to_uom_id accumulated rest (neighbor ∷ visited)
                (queue ++ ((neighbor, times accumulated leg) ∷ []))
        ]
      ]

  -- The outer loop, on fuel.
  unfoldable pub search_units : ℕ → ℕ → ℕ → Table ℕ D → List ℕ → List (ℕ × D) → Option D
  unfolding neighbors scan
  search_units zero base_uom_id to_uom_id factors visited queue = none
  search_units (suc fuel) base_uom_id to_uom_id factors visited [] = none
  search_units (suc fuel) base_uom_id to_uom_id factors visited ((node, accumulated) ∷ queue) =
      elim (scan to_uom_id accumulated (neighbors base_uom_id factors node) visited queue) [
        | hit total ↦ some total
        | go_on seen rest ↦ search_units fuel base_uom_id to_uom_id factors seen rest
      ]

module _ {D : Type 0} (one : D) (times over : D → D → D) (is_positive : D → Bool) where
  unfoldable pub resolve_factor : ℕ → ℕ → ℕ → ℕ → List (UomConversion D) → Option D
  unfolding valid_factors search_units
  resolve_factor fuel base_uom_id from_uom_id to_uom_id conversions =
      if from_uom_id == to_uom_id
      then some one
      else search_units one times over fuel base_uom_id to_uom_id
          (valid_factors is_positive conversions) (from_uom_id ∷ []) ((from_uom_id, one) ∷ [])

  unfoldable pub convert_quantity : ℕ → ℕ → ℕ → ℕ → D → List (UomConversion D) → Option D
  unfolding resolve_factor
  convert_quantity fuel base_uom_id from_uom_id to_uom_id quantity conversions =
      elim (resolve_factor fuel base_uom_id from_uom_id to_uom_id conversions) [
        | none ↦ none
        | some factor ↦ some (times quantity factor)
      ]
