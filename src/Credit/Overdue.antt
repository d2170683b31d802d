-- ===== src/Credit/Overdue.antt =====
-- The overdue flip of services/credit_control_service.py: which invoices it reaches.
use rezorpay_pro.Common.{
  ℕ, zero_ℤ, true, false, ◌&&◌, Option, some, List, [], ◌∷◌, ◌≡◌, ◌⊎◌, refl, sym, ap, ◌∙◌, subst,
  lookup, put, lookup-put_self, lookup-put_ne, nat_eq, ltb_ℤ, inl, inr, Bool-cases, Table, ◌==◌,
  ==_iff, some_inj, Among, select_complete, arith,
}
use rezorpay_pro.Receivable.{Invoice, overdue, ReceivableStore, balance_due, Payment}
use rezorpay_pro.Credit.{Open, due_of, utc_today}
use rezorpay_pro.Credit.Evaluate.{
  flip_row, flip_past_due, past_due_select, is_past_due, apply_overdue_client,
}

-- The invoice of an id was marked overdue.
abbrev pub IsMarked : ℕ → ReceivableStore → Type 0
IsMarked j s =
    (invoice : Invoice) × (lookup j s.invoices ≡ some invoice) × (invoice.status ≡ overdue)

-- It stands as it stood, or was marked.
abbrev pub KeptOrMarked : ℕ → ReceivableStore → ReceivableStore → Type 0
KeptOrMarked j s t = (lookup j t.invoices ≡ lookup j s.invoices) ⊎ IsMarked j t

abbrev marked : Open → ReceivableStore → ReceivableStore
marked row s = record s { invoices = put row.0 (record row.1 { status = overdue }) s.invoices }

marks : (j : ℕ) (row : Open) (s : ReceivableStore) → row.0 ≡ j → IsMarked j (marked row s)
marks j row s e =
    subst (λ i. IsMarked i (marked row s)) e
      (
        record row.1 { status = overdue },
        lookup-put_self row.0 (record row.1 { status = overdue }) s.invoices,
        refl,
      )

passes_by :
    (j : ℕ) (row : Open) (s : ReceivableStore)
    → (row.0 == j) ≡ false
    → lookup j (marked row s).invoices ≡ lookup j s.invoices
passes_by j row s e = lookup-put_ne row.0 j (record row.1 { status = overdue }) s.invoices e

row-KeptOrMarked :
    (j : ℕ) (s : ReceivableStore) (row : Open) (acc : ℕ × ReceivableStore)
    → KeptOrMarked j s acc.1
    → KeptOrMarked j s (flip_row row acc).1
row-KeptOrMarked j s row (n, t) k = elim (Bool-cases (ltb_ℤ zero_ℤ (due_of t.payments row))) [
  | inr settled ↦ rw settled k
  | inl owing ↦ rw owing (elim (Bool-cases (row.0 == j)) [
    | inl here ↦ inr (marks j row t ((==_iff row.0 j).0 here))
    | inr other ↦ elim k [
      | inl same ↦ inl (passes_by j row t other ∙ same)
      | inr (i, e, o) ↦ inr (i, passes_by j row t other ∙ e, o)
    ]
  ])
]

row-IsMarked :
    (j : ℕ) (row : Open) (acc : ℕ × ReceivableStore)
    → IsMarked j acc.1
    → IsMarked j (flip_row row acc).1
row-IsMarked j row (n, t) (i, e, o) = elim (Bool-cases (ltb_ℤ zero_ℤ (due_of t.payments row))) [
  | inr settled ↦ rw settled (i, e, o)
  | inl owing ↦ rw owing (elim (Bool-cases (row.0 == j)) [
    | inl here ↦ marks j row t ((==_iff row.0 j).0 here)
    | inr other ↦ (i, passes_by j row t other ∙ e, o)
  ])
]

flip-KeptOrMarked :
    (j : ℕ) (s : ReceivableStore) (rows : List Open) (acc : ℕ × ReceivableStore)
    → KeptOrMarked j s acc.1
    → KeptOrMarked j s (flip_past_due rows acc).1
unfolding flip_past_due
flip-KeptOrMarked j s [] acc k = k
flip-KeptOrMarked j s (row ∷ rows) acc k =
    flip-KeptOrMarked j s rows (flip_row row acc) (row-KeptOrMarked j s row acc k)

flip-IsMarked :
    (j : ℕ) (rows : List Open) (acc : ℕ × ReceivableStore)
    → IsMarked j acc.1
    → IsMarked j (flip_past_due rows acc).1
unfolding flip_past_due
flip-IsMarked j [] acc m = m
flip-IsMarked j (row ∷ rows) acc m =
    flip-IsMarked j rows (flip_row row acc) (row-IsMarked j row acc m)

row-payments :
    (row : Open) (acc : ℕ × ReceivableStore) → (flip_row row acc).1.payments ≡ acc.1.payments
row-payments row (n, t) = elim (Bool-cases (ltb_ℤ zero_ℤ (due_of t.payments row))) [
  | inr settled ↦ rw settled refl
  | inl owing ↦ rw owing refl
]

-- A row of the list with something open is marked.
flip-Among :
    (j : ℕ) (invoice : Invoice) (payments : Table ℕ Payment) (rows : List Open)
    (acc : ℕ × ReceivableStore)
    → Among (j, invoice) rows
    → acc.1.payments ≡ payments
    → ltb_ℤ zero_ℤ (balance_due j invoice payments) ≡ true
    → IsMarked j (flip_past_due rows acc).1
unfolding flip_past_due
flip-Among j invoice payments [] acc m same owing = absurd m
flip-Among j invoice payments (row ∷ rows) acc (inr m) same owing =
    flip-Among j invoice payments rows (flip_row row acc) m (row-payments row acc ∙ same) owing
flip-Among j invoice payments (row ∷ rows) (n, t) (inl e) same owing =
    flip-IsMarked j rows (flip_row row (n, t))
      (rw (ap (λ x. due_of t.payments x) e, same, owing) (marks j row t (ap (λ x. x.0) e)))

overdue_not_due :
    (today workspace_id : ℕ) (client_id : Option ℕ) (invoice : Invoice)
    → invoice.status ≡ overdue
    → is_past_due today workspace_id client_id invoice ≡ false
overdue_not_due today workspace_id client_id invoice h = ground arith

module _ (now workspace_id client_id : ℕ) (s : ReceivableStore) (j : ℕ) (invoice : Invoice)
    (h : lookup j (apply_overdue_client now workspace_id client_id s).1.invoices ≡ some invoice)
    (late : is_past_due (utc_today now) workspace_id (some client_id) invoice ≡ true) where
  unmarked : IsMarked j (apply_overdue_client now workspace_id client_id s).1 → ⊥
  unmarked (i, e, o) =
      let same : i ≡ invoice = some_inj (sym e ∙ h) in
      let bad : true ≡ false =
        sym late
        ∙ overdue_not_due (utc_today now) workspace_id (some client_id) invoice
            (subst (λ (x : Invoice). x.status ≡ overdue) same o) in
      cc

  none_left : ltb_ℤ zero_ℤ (balance_due j invoice s.payments) ≡ true → ⊥
  unfolding apply_overdue_client past_due_select
  none_left owing =
      let rows = past_due_select now workspace_id (some client_id) s in
      elim (flip-KeptOrMarked j s rows (0, s) (inl refl)) [
        | inr m ↦ unmarked m
        | inl same ↦ unmarked (
            flip-Among j invoice s.payments rows (0, s)
              (select_complete (is_past_due (utc_today now) workspace_id (some client_id)) j invoice
                s.invoices (sym same ∙ h) late)
              refl owing)
      ]

-- Once the overdue invoices of a client are marked, none that is sent or partially paid, past its due
-- date and not deleted has anything left open.
pub apply_overdue_client_complete :
    (now workspace_id client_id : ℕ) (s : ReceivableStore) (j : ℕ) (invoice : Invoice)
    → lookup j (apply_overdue_client now workspace_id client_id s).1.invoices ≡ some invoice
    → (is_past_due (utc_today now) workspace_id (some client_id) invoice
        && ltb_ℤ zero_ℤ (balance_due j invoice s.payments))
      ≡ false
apply_overdue_client_complete now workspace_id client_id s j invoice h =
    elim (Bool-cases (is_past_due (utc_today now) workspace_id (some client_id) invoice)) [
      | inr other ↦ rw other
      | inl late ↦ elim (Bool-cases (ltb_ℤ zero_ℤ (balance_due j invoice s.payments))) [
        | inr settled ↦ rw (late, settled)
        | inl owing ↦ absurd (none_left now workspace_id client_id s j invoice h late owing)
      ]
    ]
