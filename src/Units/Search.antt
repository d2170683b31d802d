-- ===== src/Units/Search.antt =====
-- What the search of services/uom_conversion_service.py comes to.
use rezorpay_pro.Common.{
  ℕ, zero, suc, Bool, true, false, Option, none, some, List, [], ◌∷◌, ◌++◌, Table, ◌==◌, ==_iff,
  ◌≡◌, refl, sym, ap, ◌∙◌, subst, if◌then◌else◌, lookup, nat_eq, Bool-cases, Option-cases, inl, inr,
  All, arith,
}
use rezorpay_pro.Units.{
  UomConversion, Scan, hit, go_on, is_visited, valid_factors, from_base, neighbors, scan,
  search_units, resolve_factor,
}

module _ {D : Type 0} (one : D) (times over : D → D → D) where
  -- The nodes of a queue that are not the base unit.
  abbrev Leaves : ℕ → List (ℕ × D) → Type 0
  Leaves base queue = All (λ x. (x.0 == base) ≡ false) queue

  Leaves-append :
      (base : ℕ) (queue : List (ℕ × D)) (x : ℕ × D)
      → Leaves base queue
      → (x.0 == base) ≡ false
      → Leaves base (queue ++ (x ∷ []))
  Leaves-append base [] x h e = (e, tt)
  Leaves-append base (y ∷ ys) x h e = (h.0, Leaves-append base ys x h.1 e)

  -- A leaf leads to the base unit alone, and there is nothing more to find once that was visited.
  leaf-scan :
      (base to node : ℕ) (acc : D) (factors : Table ℕ D) (visited : List ℕ) (queue : List (ℕ × D))
      → (node == base) ≡ false
      → is_visited base visited ≡ true
      → scan one times over to acc (neighbors one times over base factors node) visited queue
        ≡ go_on visited queue
  unfolding scan neighbors
  leaf-scan base to node acc factors visited queue leaf seen =
      elim (Option-cases (lookup node factors)) [
        | inl absent ↦ rw (neighbors, leaf, absent) refl
        | inr (f, e) ↦ rw (neighbors, leaf, e, scan, seen) refl
      ]

  drain :
      (fuel base to : ℕ) (factors : Table ℕ D) (visited : List ℕ) (queue : List (ℕ × D))
      → is_visited base visited ≡ true
      → Leaves base queue
      → search_units one times over fuel base to factors visited queue ≡ none
  unfolding search_units
  drain zero base to factors visited queue seen leaves = refl
  drain (suc fuel) base to factors visited [] seen leaves = refl
  drain (suc fuel) base to factors visited ((node, acc) ∷ queue) seen leaves =
      rw (search_units, leaf-scan base to node acc factors visited queue leaves.0 seen)
        (drain fuel base to factors visited queue seen leaves.1)

  not_base :
      (base node : ℕ) (visited : List ℕ)
      → is_visited base visited ≡ true
      → is_visited node visited ≡ false
      → (node == base) ≡ false
  not_base base node visited seen new = elim (Bool-cases (node == base)) [
    | inr other ↦ other
    | inl same ↦
        let bad : true ≡ false =
          sym seen ∙ ap (λ n. is_visited n visited) (sym ((==_iff node base).0 same)) ∙ new in
        cc
  ]

  differ :
      (a b : ℕ) (visited : List ℕ)
      → is_visited a visited ≡ true
      → is_visited b visited ≡ false
      → (a == b) ≡ false
  differ a b visited seen new = elim (Bool-cases (a == b)) [
    | inr other ↦ other
    | inl same ↦
        let bad : true ≡ false =
          sym seen ∙ ap (λ n. is_visited n visited) ((==_iff a b).0 same) ∙ new in
        cc
  ]

  still_seen :
      (base n : ℕ) (visited : List ℕ)
      → is_visited base visited ≡ true
      → is_visited base (n ∷ visited) ≡ true
  unfolding is_visited
  still_seen base n visited h = ground arith

  still_new :
      (to n : ℕ) (visited : List ℕ)
      → (n == to) ≡ false
      → is_visited to visited ≡ false
      → is_visited to (n ∷ visited) ≡ false
  unfolding is_visited
  still_new to n visited h k = ground arith

  abbrev outcome : D → Option D → Option D
  outcome acc none = none
  outcome acc (some g) = some (times acc (over one g))

  abbrev continue : ℕ → ℕ → ℕ → Table ℕ D → Scan D → Option D
  continue fuel base to factors (hit d) = some d
  continue fuel base to factors (go_on seen rest) =
      search_units one times over fuel base to factors seen rest

  -- From the base unit, the wanted unit is found if it has a factor, and else nothing is.
  base-scan :
      (fuel base to : ℕ) (acc : D) (factors t : Table ℕ D) (visited : List ℕ) (queue : List (ℕ × D))
      → is_visited base visited ≡ true
      → is_visited to visited ≡ false
      → Leaves base queue
      → continue fuel base to factors
          (scan one times over to acc (from_base one times over t) visited queue)
        ≡ outcome acc (lookup to t)
  unfolding scan from_base lookup
  base-scan fuel base to acc factors [] visited queue seen new leaves =
      drain fuel base to factors visited queue seen leaves
  base-scan fuel base to acc factors ((n, g) ∷ t) visited queue seen new leaves =
      elim (Bool-cases (is_visited n visited)) [
        | inl old ↦
            rw (scan, old, differ n to visited old new)
              (base-scan fuel base to acc factors t visited queue seen new leaves)
        | inr fresh ↦ elim (Bool-cases (n == to)) [
          | inl found ↦ rw (scan, fresh, found) refl
          | inr other ↦
              rw (scan, fresh, other)
                (base-scan fuel base to acc factors t (n ∷ visited)
                  (queue ++ ((n, times acc (over one g)) ∷ [])) (still_seen base n visited seen)
                  (still_new to n visited other new)
                  (Leaves-append base queue (n, times acc (over one g)) leaves
                    (not_base base n visited seen fresh)))
        ]
      ]

  one_step :
      (fuel base to node : ℕ) (acc : D) (factors : Table ℕ D) (visited : List ℕ)
      (queue : List (ℕ × D))
      → search_units one times over (suc fuel) base to factors visited ((node, acc) ∷ queue)
        ≡ continue fuel base to factors
            (scan one times over to acc (neighbors one times over base factors node) visited queue)
  unfolding search_units
  one_step fuel base to node acc factors visited queue =
      go (scan one times over to acc (neighbors one times over base factors node) visited queue)
    where
      go :
          (r : Scan D)
          → (elim r [
            | hit total ↦ some total
            | go_on seen rest ↦ search_units one times over fuel base to factors seen rest
          ])
            ≡ continue fuel base to factors r
      go (hit d) = refl
      go (go_on seen rest) = refl

  -- From a queue that begins with the base unit.
  base_step :
      (fuel base to : ℕ) (acc : D) (factors : Table ℕ D) (visited : List ℕ)
      → is_visited base visited ≡ true
      → is_visited to visited ≡ false
      → search_units one times over (suc fuel) base to factors visited ((base, acc) ∷ [])
        ≡ outcome acc (lookup to factors)
  unfolding neighbors
  base_step fuel base to acc factors visited seen new =
      one_step fuel base to base acc factors visited []
      ∙ rw (neighbors, (==_iff base base).1 refl)
          (base-scan fuel base to acc factors factors visited [] seen new tt)

  -- What a unit with the factor `f` to the base unit comes to.
  abbrev pub through_base : ℕ → ℕ → Table ℕ D → Option D → Option D
  through_base base to factors none = none
  through_base base to factors (some f) =
      if base == to then some (times one f) else outcome (times one f) (lookup to factors)

  abbrev pub direct : ℕ → ℕ → ℕ → Table ℕ D → Option D
  direct base from to factors =
      if from == to
      then some one
      else if from == base
      then outcome one (lookup to factors)
      else through_base base to factors (lookup from factors)

  first_visited : (n : ℕ) → is_visited n (n ∷ []) ≡ true
  unfolding is_visited
  first_visited n = rw ((==_iff n n).1 refl) refl

  now_visited : (n m : ℕ) → is_visited n (n ∷ m ∷ []) ≡ true
  unfolding is_visited
  now_visited n m = rw ((==_iff n n).1 refl) refl

  only_first : (n m : ℕ) → (n == m) ≡ false → is_visited m (n ∷ []) ≡ false
  unfolding is_visited
  only_first n m h = rw h refl

  dead_end :
      (fuel base from to : ℕ) (factors : Table ℕ D)
      → (from == base) ≡ false
      → lookup from factors ≡ none
      → continue fuel base to factors
          (scan one times over to one (neighbors one times over base factors from) (from ∷ []) [])
        ≡ none
  unfolding neighbors scan search_units
  dead_end zero base from to factors leaf absent = rw (neighbors, leaf, absent) refl
  dead_end (suc fuel) base from to factors leaf absent = rw (neighbors, leaf, absent) refl

  via_base :
      (fuel base from to : ℕ) (f : D) (factors : Table ℕ D)
      → (from == to) ≡ false
      → (from == base) ≡ false
      → lookup from factors ≡ some f
      → continue
          (suc fuel)
          base
          to
          factors
          (scan one times over to one (neighbors one times over base factors from) (from ∷ []) [])
        ≡ through_base base to factors (some f)
  unfolding neighbors scan
  via_base fuel base from to f factors apart leaf e = elim (Bool-cases (base == to)) [
    | inl found ↦ rw (neighbors, leaf, e, scan, only_first from base leaf, found) refl
    | inr other ↦
        rw (neighbors, leaf, e, scan, only_first from base leaf, other)
          (base_step fuel base to (times one f) factors (base ∷ from ∷ []) (now_visited base from)
            (still_new to base (from ∷ []) other (only_first from to apart)))
  ]

  search_units-eq :
      (fuel base from to : ℕ) (factors : Table ℕ D)
      → (from == to) ≡ false
      → search_units one times over (suc (suc fuel)) base to factors (from ∷ []) ((from, one) ∷ [])
        ≡ direct base from to factors
  search_units-eq fuel base from to factors apart = elim (Bool-cases (from == base)) [
    | inl at_base ↦
        let e = (==_iff from base).0 at_base in
        rw (apart, at_base)
          (subst
            (λ n.
              search_units one times over (suc (suc fuel)) base to factors (n ∷ []) ((n, one) ∷ [])
              ≡ outcome one (lookup to factors))
            (sym e)
            (base_step (suc fuel) base to one factors (base ∷ []) (first_visited base)
              (only_first base to (ap (λ n. n == to) (sym e) ∙ apart))))
    | inr leaf ↦ elim (Option-cases (lookup from factors)) [
      | inl absent ↦
          rw (apart, leaf, absent)
            (one_step (suc fuel) base to from one factors (from ∷ []) []
              ∙ dead_end (suc fuel) base from to factors leaf absent)
      | inr (f, e) ↦
          rw (apart, leaf, e)
            (one_step (suc fuel) base to from one factors (from ∷ []) []
              ∙ via_base fuel base from to f factors apart leaf e)
    ]
  ]

  -- The search needs no more than two rounds: with any fuel from two on, resolve_factor gives one for
  -- equal units, from or to the base unit the quotient by or the product with the factor of the other,
  -- between two other units the product and then the quotient, and none where a factor is missing.
  pub resolve_factor-direct :
      (is_positive : D → Bool) (fuel base from to : ℕ) (rows : List (UomConversion D))
      → resolve_factor one times over is_positive (suc (suc fuel)) base from to rows
        ≡ direct base from to (valid_factors is_positive rows)
  unfolding resolve_factor
  resolve_factor-direct is_positive fuel base from to rows = elim (Bool-cases (from == to)) [
    | inl same ↦ rw same refl
    | inr apart ↦
        let found = search_units-eq fuel base from to (valid_factors is_positive rows) apart in
        rw apart (found ∙ rw apart refl)
  ]
