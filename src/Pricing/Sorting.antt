-- ===== src/Pricing/Sorting.antt =====
-- The sort of `_best_row` (services/pricing_service.py) and the row that comes first.
use rezorpay_pro.Common.{
  ℕ, ℤ, Bool, true, false, ◌&&◌, ◌||◌, Option, none, some, List, [], ◌∷◌, ◌==◌, ◌≡◌, refl, sym,
  subst, ltb, leb, leb_ℤ, Bool-cases, inl, inr, All, Among, arith, ⊤, ◌+◌, pos_part, neg_part,
}
use rezorpay_pro.Pricing.{
  ProductPrice, min_qty, keep, goes_before, insert_row, sort_rows, first_row, best_row,
}

module _ {A : Type 0} where
  pub All-map : {P Q : A → Type 0} → ((x : A) → P x → Q x) → (xs : List A) → All P xs → All Q xs
  All-map f [] h = tt
  All-map f (x ∷ xs) h = (f x h.0, All-map f xs h.1)

  pub All-self : (xs : List A) → All (λ x. Among x xs) xs
  All-self [] = tt
  All-self (x ∷ xs) = (inl refl, All-map (λ y m. inr m) xs (All-self xs))

insert-first :
    (row next : ProductPrice) (rows : List ProductPrice)
    → goes_before row next ≡ true
    → insert_row row (next ∷ rows) ≡ row ∷ next ∷ rows
unfolding insert_row
insert-first row next rows first = rw (insert_row, first) refl

insert-later :
    (row next : ProductPrice) (rows : List ProductPrice)
    → goes_before row next ≡ false
    → insert_row row (next ∷ rows) ≡ next ∷ insert_row row rows
unfolding insert_row
insert-later row next rows later = rw (insert_row, later) refl

keep-some :
    (test : ProductPrice → Bool) (row : ProductPrice) (rows : List ProductPrice)
    → test row ≡ true
    → keep test (row ∷ rows) ≡ row ∷ keep test rows
unfolding keep
keep-some test row rows e = rw (keep, e) refl

keep-none :
    (test : ProductPrice → Bool) (row : ProductPrice) (rows : List ProductPrice)
    → test row ≡ false
    → keep test (row ∷ rows) ≡ keep test rows
unfolding keep
keep-none test row rows e = rw (keep, e) refl

module _ (P : ProductPrice → Type 0) where
  All-insert :
      (row : ProductPrice) (rows : List ProductPrice)
      → P row
      → All P rows
      → All P (insert_row row rows)
  unfolding insert_row
  All-insert row [] p h = (p, tt)
  All-insert row (next ∷ rows) p h = elim (Bool-cases (goes_before row next)) [
    | inl first ↦ subst (All P) (sym (insert-first row next rows first)) (p, h)
    | inr later ↦
        subst (All P) (sym (insert-later row next rows later)) (h.0, All-insert row rows p h.1)
  ]

  All-inserted :
      (row : ProductPrice) (rows : List ProductPrice)
      → All P (insert_row row rows)
      → P row × All P rows
  unfolding insert_row
  All-inserted row [] h = h
  All-inserted row (next ∷ rows) h = elim (Bool-cases (goes_before row next)) [
    | inl first ↦ subst (All P) (insert-first row next rows first) h
    | inr later ↦
        let k = subst (All P) (insert-later row next rows later) h in
        let rest = All-inserted row rows k.1 in (rest.0, (k.0, rest.1))
  ]

  All-sort : (rows : List ProductPrice) → All P rows → All P (sort_rows rows)
  unfolding sort_rows
  All-sort [] h = tt
  All-sort (row ∷ rows) h = All-insert row (sort_rows rows) h.0 (All-sort rows h.1)

  All-sorted_rows : (rows : List ProductPrice) → All P (sort_rows rows) → All P rows
  unfolding sort_rows
  All-sorted_rows [] h = tt
  All-sorted_rows (row ∷ rows) h =
      let k = All-inserted row (sort_rows rows) h in (k.0, All-sorted_rows rows k.1)

  pub All-keep :
      (test : ProductPrice → Bool) (rows : List ProductPrice)
      → All P rows
      → All (λ row. P row × (test row ≡ true)) (keep test rows)
  unfolding keep
  All-keep test [] h = tt
  All-keep test (row ∷ rows) h = elim (Bool-cases (test row)) [
    | inl kept ↦
        subst (All _) (sym (keep-some test row rows kept)) ((h.0, kept), All-keep test rows h.1)
    | inr gone ↦ subst (All _) (sym (keep-none test row rows gone)) (All-keep test rows h.1)
  ]

  pub All-kept :
      (test : ProductPrice → Bool) (rows : List ProductPrice)
      → All P (keep test rows)
      → All (λ row. test row ≡ true → P row) rows
  unfolding keep
  All-kept test [] h = tt
  All-kept test (row ∷ rows) h = elim (Bool-cases (test row)) [
    | inl kept ↦
        let k = subst (All P) (keep-some test row rows kept) h in
        ((λ e. k.0), All-kept test rows k.1)
    | inr gone ↦ ((λ e. cc), All-kept test rows (subst (All P) (keep-none test row rows gone) h))
  ]

-- The first row of a list goes before the others.
abbrev Leads : List ProductPrice → Type 0
Leads [] = ⊤
Leads (row ∷ rows) = All (λ other. goes_before row other ≡ true) rows

-- The order of the sort, over the two parts of the quantities.
abbrev before : ℕ → ℕ → ℕ → ℕ → ℕ → ℕ → Bool
before p n i q m j = ltb (q + n) (p + m) || ((p + m == q + n) && leb i j)

before_trans :
    (p n i q m j r l k : ℕ)
    → before p n i q m j ≡ true
    → before q m j r l k ≡ true
    → before p n i r l k ≡ true
before_trans p n i q m j r l k g h = ground arith

before_total : (p n i q m j : ℕ) → before p n i q m j ≡ false → before q m j p n i ≡ true
before_total p n i q m j h = ground arith

goes_before_trans :
    (a b c : ProductPrice)
    → goes_before a b ≡ true
    → goes_before b c ≡ true
    → goes_before a c ≡ true
goes_before_trans a b c =
    before_trans (pos_part (min_qty a)) (neg_part (min_qty a)) a.id (pos_part (min_qty b))
      (neg_part (min_qty b)) b.id (pos_part (min_qty c)) (neg_part (min_qty c)) c.id

goes_before_total : (a b : ProductPrice) → goes_before a b ≡ false → goes_before b a ≡ true
goes_before_total a b =
    before_total (pos_part (min_qty a)) (neg_part (min_qty a)) a.id (pos_part (min_qty b))
      (neg_part (min_qty b)) b.id

insert-Leads :
    (row : ProductPrice) (rows : List ProductPrice) → Leads rows → Leads (insert_row row rows)
unfolding insert_row
insert-Leads row [] h = tt
insert-Leads row (next ∷ rows) h = elim (Bool-cases (goes_before row next)) [
  | inl first ↦
      subst Leads (sym (insert-first row next rows first))
        (first, All-map (λ other. goes_before_trans row next other first) rows h)
  | inr later ↦ subst Leads (sym (insert-later row next rows later)) (
      All-insert (λ other. goes_before next other ≡ true) row rows
        (goes_before_total row next later) h)
]

sort-Leads : (rows : List ProductPrice) → Leads (sort_rows rows)
unfolding sort_rows
sort-Leads [] = tt
sort-Leads (row ∷ rows) = insert-Leads row (sort_rows rows) (sort-Leads rows)

goes_before_self : (a : ProductPrice) → goes_before a a ≡ true
goes_before_self a = ground arith

-- The first of the rows that `best_row` may take.
unfoldable pub Best :
    (test : ProductPrice → Bool) → List ProductPrice → Option ProductPrice → Type 0
Best test rows none = All (λ row. test row ≡ false) rows
Best test rows (some best) =
    Among best rows
    × (test best ≡ true)
    × All (λ row. test row ≡ true → goes_before best row ≡ true) rows

abbrev pub both : (ProductPrice → Bool) → ℤ → ProductPrice → Bool
both test quantity row = test row && leb_ℤ (min_qty row) quantity

first-Best :
    (test : ProductPrice → Bool) (quantity : ℤ) (rows sorted : List ProductPrice)
    → Leads sorted
    → All
        (λ row. (Among row rows × (test row ≡ true)) × (leb_ℤ (min_qty row) quantity ≡ true))
        sorted
    → ((P : ProductPrice → Type 0)
        → All P sorted
        → All (λ row. both test quantity row ≡ true → P row) rows)
    → Best (both test quantity) rows (first_row sorted)
unfolding Best
first-Best test quantity rows [] lead good back =
    All-map
      (λ row no_row. elim (Bool-cases (both test quantity row)) [
        | inl there ↦ elim (no_row there) [ ]
        | inr gone ↦ gone
      ])
      rows (back (λ row. ⊥) tt)
first-Best test quantity rows (best ∷ others) lead good back = (
  good.0.0.0,
  ground arith,
  back (λ row. goes_before best row ≡ true) (goes_before_self best, lead),
)

pub best_row-Best :
    (test : ProductPrice → Bool) (quantity : ℤ) (rows : List ProductPrice)
    → Best (both test quantity) rows (best_row (keep test rows) quantity)
unfolding best_row
best_row-Best test quantity rows =
    let fits = λ (row : ProductPrice). leb_ℤ (min_qty row) quantity in
    let kept = keep test rows in
    first-Best test quantity rows (sort_rows (keep fits kept)) (sort-Leads (keep fits kept))
      (All-sort _ (keep fits kept)
        (All-keep _ fits kept (All-keep (λ row. Among row rows) test rows (All-self rows))))
      (λ P all. All-map (split P) rows (
        All-kept (λ row. fits row ≡ true → P row) test rows
          (All-kept P fits kept (All-sorted_rows P (keep fits kept) all))))
  where
    split :
        (P : ProductPrice → Type 0) (row : ProductPrice)
        → (test row ≡ true → leb_ℤ (min_qty row) quantity ≡ true → P row)
        → both test quantity row ≡ true
        → P row
    split P row k e = k (ground arith) (ground arith)
