-- ===== src/Numbers/Gapless.antt =====
-- The numbers of one counter (services/dn_number.py and its kin) have no gap and no repetition,
-- however the requests for different counters are interleaved.
use Prim.Native.String.{String}
use rezorpay_pro.Common.{
  ℕ, List, [], ◌∷◌, ◌≡◌, refl, zero, suc, if◌then◌else◌, lookup, lookup-put, arith, ap, inl, inr,
  Bool-cases,
}
use rezorpay_pro.Numbers.{
  CounterKey, same_counter, same_counter_iff, counter_eq, Counters, DocumentNumber, or_zero,
  last_number, next_number,
}

-- One session after another takes a number.
unfoldable pub take_numbers :
    String → List CounterKey → Counters → List (CounterKey × DocumentNumber)
unfolding next_number
take_numbers prefix [] t = []
take_numbers prefix (key ∷ keys) t =
    let taken = next_number prefix key t in (key, taken.0) ∷ take_numbers prefix keys taken.1

-- The numbers that went to one counter.
unfoldable pub numbers_of : CounterKey → List (CounterKey × DocumentNumber) → List ℕ
numbers_of key [] = []
numbers_of key ((k, n) ∷ rest) =
    let others = numbers_of key rest in if same_counter k key then n.number ∷ others else others

unfoldable pub requests_of : CounterKey → List CounterKey → ℕ
requests_of key [] = 0
requests_of key (k ∷ keys) =
    let others = requests_of key keys in if same_counter k key then suc others else others

-- `n + 1`, `n + 2` and so on.
unfoldable pub following : ℕ → ℕ → List ℕ
following n zero = []
following n (suc count) = suc n ∷ following (suc n) count

last_number_after :
    (prefix : String) (key k : CounterKey) (t : Counters)
    → last_number k (next_number prefix key t).1
      ≡ (if same_counter key k then suc (last_number key t) else last_number k t)
unfolding last_number next_number
last_number_after prefix key k t = ground (arith, lookup-put key k (suc (or_zero (lookup key t))) t)

-- In any sequence of requests, the numbers that a counter gives are those that follow its last one,
-- in order, one for each request for it.
pub take_numbers_gapless :
    (prefix : String) (key : CounterKey) (keys : List CounterKey) (t : Counters)
    → numbers_of key (take_numbers prefix keys t)
      ≡ following (last_number key t) (requests_of key keys)
unfolding take_numbers numbers_of requests_of following next_number
take_numbers_gapless prefix key [] t = refl
take_numbers_gapless prefix key (k ∷ keys) t =
    let ih = take_numbers_gapless prefix key keys (next_number prefix k t).1 in
    let after = last_number_after prefix k key t in
    elim (Bool-cases (same_counter k key)) [
      | inl same ↦
          rw (same, ih, after, same, ap (λ j. last_number j t) ((same_counter_iff k key).0 same))
            refl
      | inr other ↦ rw (other, ih, after, other) refl
    ]
