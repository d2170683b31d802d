-- ===== src/Common/Loop.antt =====
-- The `for` loops of the services, and Python's `sorted`.
use Prim.Native.Nat.{ℕ}
use mathlib.Core.Path.{◌≡◌, refl, subst}
use mathlib.Core.Logic.{inl, inr}
use mathlib.Core.List.{List, [], ◌∷◌}
use mathlib.Core.Bool.{Bool, false, ◌||◌}
use rezorpay_pro.Common.Tests.{leb, if◌then◌else◌, Bool-cases}
use rezorpay_pro.Common.Int.{ℤ, ◌+ℤ◌, zero_ℤ, int_laws}
use rezorpay_pro.Common.Outcome.{Result, ok, ◌>>=◌, >>=-eq-ok, ok_injective}

module _ {A S : Type 0} where
  -- `for x in xs: body`, over the state that the body changes.
  unfoldable pub for_each : (A → S → Result S) → List A → S → Result S
  for_each body [] s = ok s
  for_each body (x ∷ xs) s = body x s >>= for_each body xs

  -- What every round keeps, the loop keeps.
  pub for_each_inv {ℓ} :
      (P : S → Type ℓ) (body : A → S → Result S)
      → ((x : A) (s s' : S) → body x s ≡ ok s' → P s → P s')
      → (xs : List A) (s s' : S) → for_each body xs s ≡ ok s'
      → P s
      → P s'
  unfolding for_each
  for_each_inv P body keep [] s s' h p = subst P (ok_injective h) p
  for_each_inv P body keep (x ∷ xs) s s' h p =
      let (t, first, rest) = >>=-eq-ok (body x s) (for_each body xs) h in
      for_each_inv P body keep xs t s' rest (keep x s t first p)

module _ {A : Type 0} where
  -- A predicate of all the elements, which computes to a tuple.
  abbrev pub All {ℓ} : (A → Type ℓ) → List A → Type ℓ
  All P [] = Unit
  All P (x ∷ xs) = P x × All P xs

  unfoldable pub sum : (A → ℤ) → List A → ℤ
  sum f [] = zero_ℤ
  sum f (x ∷ xs) = f x +ℤ sum f xs

  -- `sorted(xs, key=key)`: stable, so an element goes behind those with the same key.
  insert_by : (A → ℕ) → A → List A → List A
  insert_by key x [] = x ∷ []
  insert_by key x (y ∷ ys) = if leb (key x) (key y) then x ∷ y ∷ ys else y ∷ insert_by key x ys

  unfoldable pub sorted : (A → ℕ) → List A → List A
  unfolding insert_by
  sorted key [] = []
  sorted key (x ∷ xs) = insert_by key x (sorted key xs)

  sum-insert_by :
      (f : A → ℤ) (key : A → ℕ) (x : A) (xs : List A) → sum f (insert_by key x xs) ≡ f x +ℤ sum f xs
  unfolding sum insert_by
  sum-insert_by f key x [] = refl
  sum-insert_by f key x (y ∷ ys) = grind (int_laws, sum-insert_by f key x ys)

  -- Sorting changes no sum over the lines.
  pub sum-sorted : (f : A → ℤ) (key : A → ℕ) (xs : List A) → sum f (sorted key xs) ≡ sum f xs
  unfolding sum sorted
  sum-sorted f key [] = refl
  sum-sorted f key (x ∷ xs) = rw (sum-insert_by f key x (sorted key xs), sum-sorted f key xs) refl

  All-insert_by {ℓ} :
      (P : A → Type ℓ) (key : A → ℕ) (x : A) (xs : List A)
      → P x
      → All P xs
      → All P (insert_by key x xs)
  unfolding insert_by
  All-insert_by P key x [] p h = (p, tt)
  All-insert_by P key x (y ∷ ys) p h = elim (Bool-cases (leb (key x) (key y))) [
    | inl first ↦ rw first (p, h)
    | inr later ↦ rw later (h.0, All-insert_by P key x ys p h.1)
  ]

  pub All-sorted {ℓ} :
      (P : A → Type ℓ) (key : A → ℕ) (xs : List A) → All P xs → All P (sorted key xs)
  unfolding sorted
  All-sorted P key [] h = tt
  All-sorted P key (x ∷ xs) h = All-insert_by P key x (sorted key xs) h.0 (All-sorted P key xs h.1)

  -- `any(test(x) for x in xs)`
  unfoldable pub any : (A → Bool) → List A → Bool
  any test [] = false
  any test (x ∷ xs) = test x || any test xs
