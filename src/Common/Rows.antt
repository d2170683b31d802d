-- ===== src/Common/Rows.antt =====
-- A database table as the session sees it: rows under a key, in the order of insertion.
use Prim.Native.Nat.{ℕ}
use mathlib.Core.Path.{◌≡◌, refl, sym, subst}
use mathlib.Core.Logic.{◌↔◌, ◌⊎◌, inl, inr}
use mathlib.Core.Bool.{Bool, true, false}
use mathlib.Core.Option.{Option, none, some}
use mathlib.Core.List.{List, [], ◌∷◌}
use native.Mathlib.Omega.{arith}
use rezorpay_pro.Common.Tests.{◌==◌, ==_iff, if◌then◌else◌, Bool-cases, some_inj}
use rezorpay_pro.Common.Loop.{All}
use rezorpay_pro.Common.Int.{ℤ, ◌+ℤ◌, zero_ℤ, ◌≤ℤ◌, int_laws}

-- Keys that the database compares.
pub record Eq (K : Type 0) : Type 0 where
  pub beq : K → K → Bool
  pub beq_iff : (a b : K) → (beq a b ≡ true) ↔ (a ≡ b)

instance abbrev pub nat_eq : Eq ℕ
nat_eq = record { beq = ◌==◌; beq_iff = ==_iff }

abbrev pub Table : Type 0 → Type 0 → Type 0
Table K V = List (K × V)

-- An element of a list.
abbrev pub Among : {A : Type 0} → A → List A → Type 0
Among x [] = ⊥
Among x (y ∷ ys) = (y ≡ x) ⊎ Among x ys

module _ {K V : Type 0} ⦃e : Eq K⦄ where
  unfoldable pub lookup : K → Table K V → Option V
  lookup k [] = none
  lookup k ((j, v) ∷ t) = if e.beq j k then some v else lookup k t

  -- Writes the row of a key, and inserts it where there is none.
  unfoldable pub put : K → V → Table K V → Table K V
  put k v [] = (k, v) ∷ []
  put k v ((j, w) ∷ t) = if e.beq j k then (j, v) ∷ t else (j, w) ∷ put k v t

  -- A sum over the rows.
  unfoldable pub sum_by : (K → V → ℤ) → Table K V → ℤ
  sum_by f [] = zero_ℤ
  sum_by f ((j, v) ∷ t) = f j v +ℤ sum_by f t

  pub lookup-put :
      (k j : K) (v : V) (t : Table K V)
      → lookup j (put k v t) ≡ (if e.beq k j then some v else lookup j t)
  unfolding lookup put
  lookup-put k j v [] = refl
  lookup-put k j v ((i, w) ∷ t) =
      ground (arith, e.beq_iff k j, e.beq_iff i k, e.beq_iff i j, lookup-put k j v t)

  pub lookup-put_self : (k : K) (v : V) (t : Table K V) → lookup k (put k v t) ≡ some v
  lookup-put_self k v t = rw (lookup-put, (e.beq_iff k k).1 refl)

  pub lookup-put_ne :
      (k j : K) (v : V) (t : Table K V) → e.beq k j ≡ false → lookup j (put k v t) ≡ lookup j t
  lookup-put_ne k j v t h = rw (lookup-put, h)

  pub sum_by-put :
      (f : K → V → ℤ) (k : K) (v w : V) (t : Table K V)
      → lookup k t ≡ some w
      → sum_by f (put k v t) +ℤ f k w ≡ sum_by f t +ℤ f k v
  unfolding lookup put sum_by
  sum_by-put f k v w [] h = cc
  sum_by-put f k v w ((i, x) ∷ t) h = grind (int_laws, e.beq_iff i k, sum_by-put f k v w t)

  pub sum_by-put_new :
      (f : K → V → ℤ) (k : K) (v : V) (t : Table K V)
      → lookup k t ≡ none
      → sum_by f (put k v t) ≡ sum_by f t +ℤ f k v
  unfolding lookup put sum_by
  sum_by-put_new f k v [] h = omega int_laws
  sum_by-put_new f k v ((i, x) ∷ t) h = grind (int_laws, sum_by-put_new f k v t)

  -- A predicate of every row, such as a CHECK constraint.
  unfoldable pub AllRows : (V → Type 0) → Table K V → Type 0
  AllRows P [] = Unit
  AllRows P ((j, v) ∷ t) = P v × AllRows P t

  pub AllRows-lookup :
      (P : V → Type 0) (k : K) (v : V) (t : Table K V) → AllRows P t → lookup k t ≡ some v → P v
  unfolding lookup AllRows
  AllRows-lookup P k v [] h q = cc
  AllRows-lookup P k v ((j, w) ∷ t) h q = elim (Bool-cases (e.beq j k)) [
    | inl same ↦ subst P (some_inj (rw same at q)) h.0
    | inr other ↦ AllRows-lookup P k v t h.1 (rw other at q)
  ]

  pub AllRows-put :
      (P : V → Type 0) (k : K) (v : V) (t : Table K V) → AllRows P t → P v → AllRows P (put k v t)
  unfolding put AllRows
  AllRows-put P k v [] h p = (p, tt)
  AllRows-put P k v ((j, w) ∷ t) h p = elim (Bool-cases (e.beq j k)) [
    | inl same ↦ rw same (p, h.1)
    | inr other ↦ rw other (h.0, AllRows-put P k v t h.1 p)
  ]

  pub sum_by-nonneg :
      (P : V → Type 0) (f : K → V → ℤ)
      → ((k : K) (v : V) → P v → zero_ℤ ≤ℤ f k v)
      → (t : Table K V) → AllRows P t
      → zero_ℤ ≤ℤ sum_by f t
  unfolding AllRows sum_by
  sum_by-nonneg P f nn [] h = omega arith
  sum_by-nonneg P f nn ((j, v) ∷ t) h = omega (int_laws, nn j v h.0, sum_by-nonneg P f nn t h.1)

  -- Among rows that count zero or more, none counts more than the sum.
  pub le-sum_by :
      (P : V → Type 0) (f : K → V → ℤ)
      → ((k : K) (v : V) → P v → zero_ℤ ≤ℤ f k v)
      → (k : K) (v : V) (t : Table K V) → AllRows P t
      → lookup k t ≡ some v
      → f k v ≤ℤ sum_by f t
  unfolding lookup AllRows sum_by
  le-sum_by P f nn k v [] h q = cc
  le-sum_by P f nn k v ((j, w) ∷ t) h q = elim (Bool-cases (e.beq j k)) [
    | inl same ↦
        rw (← (e.beq_iff j k).0 same, ← some_inj (rw same at q))
          (omega (int_laws, sum_by-nonneg P f nn t h.1))
    | inr other ↦ omega (int_laws, nn j w h.0, le-sum_by P f nn k v t h.1 (rw other at q))
  ]

  pub keys : Table K V → List K
  keys [] = []
  keys ((k, v) ∷ t) = k ∷ keys t

  -- A row, if it is there and passes a WHERE clause.
  keep_row : (V → Bool) → K → Option V → List (K × V) → List (K × V)
  keep_row p k none rest = rest
  keep_row p k (some v) rest = if p v then (k, v) ∷ rest else rest

  select_from : (V → Bool) → List K → Table K V → List (K × V)
  select_from p [] t = []
  select_from p (k ∷ ks) t = keep_row p k (lookup k t) (select_from p ks t)

  -- A query: the rows that pass its WHERE clause, with their keys.
  unfoldable pub select : (V → Bool) → Table K V → List (K × V)
  unfolding keys select_from keep_row lookup
  select p t = select_from p (keys t) t

  -- A predicate of what a query returns.
  abbrev pub AllSelected {ℓ} : (K → V → Type ℓ) → List (K × V) → Type ℓ
  AllSelected P rows = All (λ row. P row.0 row.1) rows

  keep_row-all {ℓ} :
      (P : K → V → Type ℓ) (p : V → Bool) (k : K) (o : Option V) (rest : List (K × V))
      → ((v : V) → o ≡ some v → p v ≡ true → P k v)
      → AllSelected P rest
      → AllSelected P (keep_row p k o rest)
  unfolding keep_row
  keep_row-all P p k none rest h all = all
  keep_row-all P p k (some v) rest h all = elim (Bool-cases (p v)) [
    | inl passes ↦ rw passes (h v refl passes, all)
    | inr fails ↦ rw fails all
  ]

  -- What holds of every row that stands in the table and passes, holds of what a query returns.
  pub select-all {ℓ} :
      (P : K → V → Type ℓ) (p : V → Bool) (t : Table K V)
      → ((k : K) (v : V) → lookup k t ≡ some v → p v ≡ true → P k v)
      → AllSelected P (select p t)
  unfolding select
  select-all P p t h = go (keys t)
    where
      go : (ks : List K) → AllSelected P (select_from p ks t)
      go [] = tt
      go (k ∷ ks) = keep_row-all P p k (lookup k t) (select_from p ks t) (h k) (go ks)

  lookup-keys : (k : K) (v : V) (t : Table K V) → lookup k t ≡ some v → Among k (keys t)
  unfolding lookup keys
  lookup-keys k v [] h = cc
  lookup-keys k v ((j, w) ∷ t) h = elim (Bool-cases (e.beq j k)) [
    | inl same ↦ inl ((e.beq_iff j k).0 same)
    | inr other ↦ inr (lookup-keys k v t (rw other at h))
  ]

  keep_row-later :
      (p : V → Bool) (k : K) (o : Option V) (x : K × V) (rest : List (K × V))
      → Among x rest
      → Among x (keep_row p k o rest)
  unfolding keep_row
  keep_row-later p k none x rest m = m
  keep_row-later p k (some v) x rest m = elim (Bool-cases (p v)) [
    | inl passes ↦ rw passes (inr m)
    | inr fails ↦ rw fails m
  ]

  keep_row-first :
      (p : V → Bool) (k : K) (o : Option V) (v : V) (rest : List (K × V))
      → o ≡ some v
      → p v ≡ true
      → Among (k, v) (keep_row p k o rest)
  unfolding keep_row
  keep_row-first p k o v rest e passes = rw (e, keep_row, passes) (inl refl)

  -- A row that stands in the table and passes is among what a query returns.
  pub select_complete :
      (p : V → Bool) (k : K) (v : V) (t : Table K V)
      → lookup k t ≡ some v
      → p v ≡ true
      → Among (k, v) (select p t)
  unfolding select
  select_complete p k v t found passes = go (keys t) (lookup-keys k v t found)
    where
      go : (ks : List K) → Among k ks → Among (k, v) (select_from p ks t)
      go [] m = absurd m
      go (j ∷ ks) (inl same) =
          subst (λ i. Among (k, v) (keep_row p i (lookup i t) (select_from p ks t))) (sym same)
            (keep_row-first p k (lookup k t) v (select_from p ks t) found passes)
      go (j ∷ ks) (inr m) = keep_row-later p j (lookup j t) (k, v) (select_from p ks t) (go ks m)
