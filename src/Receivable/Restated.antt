-- ===== src/Receivable/Restated.antt =====
-- Stores of receivables that differ in statuses, credit standing and events alone.
use rezorpay_pro.Common.{
  ℕ, ℤ, zero_ℤ, Option, none, some, List, ◌∷◌, Table, ◌≡◌, refl, sym, ap, ◌∙◌, lookup, put,
  lookup-put, nat_eq, ◌==◌, inl, inr, Bool-cases, ==_iff,
}
use rezorpay_pro.Receivable.{
  CreditStatus, active, Client, Invoice, InvoiceStatus, draft, Payment, ReceivableStore,
  raw_balance, balance_due,
}

-- An invoice but for its status.
abbrev pub terms : Option Invoice → Option Invoice
terms none = none
terms (some invoice) = some (record invoice { status = draft })

-- A client but for its credit standing.
abbrev pub apart : Option Client → Option Client
apart none = none
apart (some client) = some (record client {
  credit_status = active;
  credit_status_changed_at = none;
  credit_status_changed_by = none;
})

-- A log that got more entries, the newest first.
pub data Grown {A : Type 0} : List A → List A → Type 0 where
  as_it_was : {log : List A} → Grown log log
  and_then : {x : A} {old new : List A} → Grown old new → Grown old (x ∷ new)

pub Grown-trans : {A : Type 0} {a b c : List A} → Grown a b → Grown b c → Grown a c
Grown-trans h as_it_was = h
Grown-trans h (and_then k) = and_then (Grown-trans h k)

pub record Restated (s s' : ReceivableStore) : Type 0 where
  pub payments : s'.payments ≡ s.payments
  pub keys : s'.idempotency_keys ≡ s.idempotency_keys
  pub invoices : (j : ℕ) → terms (lookup j s'.invoices) ≡ terms (lookup j s.invoices)
  pub workspaces : s'.workspaces ≡ s.workspaces
  pub clients : (j : ℕ) → apart (lookup j s'.clients) ≡ apart (lookup j s.clients)
  pub invoice_events : Grown s.invoice_events s'.invoice_events
  pub credit_events : Grown s.credit_events s'.credit_events

pub Restated-refl : (s : ReceivableStore) → Restated s s
Restated-refl s = record {
  payments = refl;
  keys = refl;
  invoices = λ j. refl;
  workspaces = refl;
  clients = λ j. refl;
  invoice_events = as_it_was;
  credit_events = as_it_was;
}

pub Restated-trans : (s t u : ReceivableStore) → Restated s t → Restated t u → Restated s u
Restated-trans s t u a b = record {
  payments = b.payments ∙ a.payments;
  keys = b.keys ∙ a.keys;
  invoices = λ j. b.invoices j ∙ a.invoices j;
  workspaces = b.workspaces ∙ a.workspaces;
  clients = λ j. b.clients j ∙ a.clients j;
  invoice_events = Grown-trans a.invoice_events b.invoice_events;
  credit_events = Grown-trans a.credit_events b.credit_events;
}

abbrev pub stand : Client → CreditStatus → Option ℕ → Option ℕ → Client
stand client status at_time by_user = record client {
  credit_status = status;
  credit_status_changed_at = at_time;
  credit_status_changed_by = by_user;
}

-- A client written again with another standing.
pub apart-put :
    (k j : ℕ) (client : Client) (status : CreditStatus) (at_time by_user : Option ℕ)
    (table : Table ℕ Client) (o : Option Client)
    → o ≡ some client
    → apart (lookup k table) ≡ apart o
    → apart (lookup j (put k (stand client status at_time by_user) table)) ≡ apart (lookup j table)
apart-put k j client status at_time by_user table o found same = elim (Bool-cases (k == j)) [
  | inl here ↦ rw (lookup-put, here, ← (==_iff k j).0 here, same, found)
  | inr there ↦ rw (lookup-put, there)
]

-- A row written again with another status.
pub terms-put :
    (k j : ℕ) (invoice : Invoice) (status : InvoiceStatus) (table : Table ℕ Invoice)
    (o : Option Invoice)
    → o ≡ some invoice
    → terms (lookup k table) ≡ terms o
    → terms (lookup j (put k (record invoice { status = status }) table)) ≡ terms (lookup j table)
terms-put k j invoice status table o found same = elim (Bool-cases (k == j)) [
  | inl here ↦ rw (lookup-put, here, ← (==_iff k j).0 here, same, found)
  | inr there ↦ rw (lookup-put, there)
]

-- What an invoice of the store has open, and before it is cut off at zero.
abbrev pub due_by : ℕ → Table ℕ Payment → Option Invoice → ℤ
due_by id payments none = zero_ℤ
due_by id payments (some invoice) = balance_due id invoice payments

abbrev pub due_at : ℕ → ReceivableStore → ℤ
due_at id s = due_by id s.payments (lookup id s.invoices)

abbrev pub raw_by : ℕ → Table ℕ Payment → Option Invoice → ℤ
raw_by id payments none = zero_ℤ
raw_by id payments (some invoice) = raw_balance id invoice payments

abbrev pub raw_at : ℕ → ReceivableStore → ℤ
raw_at id s = raw_by id s.payments (lookup id s.invoices)

pub due_by-terms :
    (id : ℕ) (t : Table ℕ Payment) (o : Option Invoice) → due_by id t (terms o) ≡ due_by id t o
unfolding balance_due raw_balance
due_by-terms id t none = refl
due_by-terms id t (some invoice) = refl

pub raw_by-terms :
    (id : ℕ) (t : Table ℕ Payment) (o : Option Invoice) → raw_by id t (terms o) ≡ raw_by id t o
unfolding raw_balance
raw_by-terms id t none = refl
raw_by-terms id t (some invoice) = refl

module _ (s s' : ReceivableStore) (r : Restated s s') (j : ℕ) where
  pub due_at-Restated : due_at j s' ≡ due_at j s
  due_at-Restated =
      sym (due_by-terms j s'.payments (lookup j s'.invoices))
      ∙ ap (due_by j s'.payments) (r.invoices j)
      ∙ due_by-terms j s'.payments (lookup j s.invoices)
      ∙ ap (λ t. due_by j t (lookup j s.invoices)) r.payments

  pub raw_at-Restated : raw_at j s' ≡ raw_at j s
  raw_at-Restated =
      sym (raw_by-terms j s'.payments (lookup j s'.invoices))
      ∙ ap (raw_by j s'.payments) (r.invoices j)
      ∙ raw_by-terms j s'.payments (lookup j s.invoices)
      ∙ ap (λ t. raw_by j t (lookup j s.invoices)) r.payments
