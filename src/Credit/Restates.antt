-- ===== src/Credit/Restates.antt =====
-- The calls of services/credit_control_service.py change statuses and credit standing alone.
use rezorpay_pro.Common.{
  ℕ, zero_ℤ, Option, some, List, [], ◌∷◌, ◌≡◌, ◌∙◌, lookup, nat_eq, ltb_ℤ, inl, inr, Bool-cases,
  select-all, AllSelected,
}
use rezorpay_pro.Receivable.{overdue, Client, Workspace, CreditEventReason, ReceivableStore}
use rezorpay_pro.Receivable.Restated.{Restated, and_then, apart-put, Restated-refl, terms-put}
use rezorpay_pro.Credit.{Open, due_of, utc_today}
use rezorpay_pro.Credit.Evaluate.{
  flip_row, flip_past_due, past_due_select, is_past_due, apply_overdue_client, snapshot,
  persist_change, evaluate, same_credit,
}

-- The rows stand in the store.
abbrev pub Stand : ReceivableStore → List Open → Type 0
Stand s rows = AllSelected (λ k v. lookup k s.invoices ≡ some v) rows

flip_row-Restated :
    (s : ReceivableStore) (row : Open) (acc : ℕ × ReceivableStore)
    → lookup row.0 s.invoices ≡ some row.1
    → Restated s acc.1
    → Restated s (flip_row row acc).1
flip_row-Restated s row (n, t) found r = elim (Bool-cases (ltb_ℤ zero_ℤ (due_of t.payments row))) [
  | inr settled ↦ rw settled r
  | inl owing ↦ rw owing (record {
    payments = r.payments;
    keys = r.keys;
    invoices = λ j.
        terms-put row.0 j row.1 overdue t.invoices (lookup row.0 s.invoices) found
          (r.invoices row.0)
        ∙ r.invoices j;
    workspaces = r.workspaces;
    clients = r.clients;
    invoice_events = r.invoice_events;
    credit_events = r.credit_events;
  })
]

flip_past_due-Restated :
    (s : ReceivableStore) (rows : List Open) (acc : ℕ × ReceivableStore)
    → Stand s rows
    → Restated s acc.1
    → Restated s (flip_past_due rows acc).1
unfolding flip_past_due
flip_past_due-Restated s [] acc found r = r
flip_past_due-Restated s (row ∷ rows) acc found r =
    flip_past_due-Restated s rows (flip_row row acc) found.1 (flip_row-Restated s row acc found.0 r)

pub past_due_select-Stand :
    (now workspace_id : ℕ) (client_id : Option ℕ) (s : ReceivableStore)
    → Stand s (past_due_select now workspace_id client_id s)
unfolding past_due_select utc_today
past_due_select-Stand now workspace_id client_id s =
    select-all (λ k v. lookup k s.invoices ≡ some v)
      (is_past_due (utc_today now) workspace_id client_id) s.invoices (λ k v found passes. found)

pub apply_overdue_client-Restated :
    (now workspace_id client_id : ℕ) (s : ReceivableStore)
    → Restated s (apply_overdue_client now workspace_id client_id s).1
unfolding apply_overdue_client
apply_overdue_client-Restated now workspace_id client_id s =
    flip_past_due-Restated s (past_due_select now workspace_id (some client_id) s) (0, s)
      (past_due_select-Stand now workspace_id (some client_id) s) (Restated-refl s)

pub evaluate-Restated :
    (now client_id : ℕ) (client : Client) (workspace_id : ℕ) (workspace : Workspace)
    (user_id : Option ℕ) (reason : CreditEventReason) (s : ReceivableStore)
    → lookup client_id s.clients ≡ some client
    → Restated s (evaluate now client_id client workspace_id workspace user_id reason s).1
unfolding evaluate persist_change
evaluate-Restated now client_id client workspace_id workspace user_id reason s known =
    let t = (apply_overdue_client now workspace_id client_id s).1 in
    let snap = snapshot now client_id client workspace_id workspace t in
    let r = apply_overdue_client-Restated now workspace_id client_id s in
    elim (Bool-cases (same_credit client.credit_status snap.status)) [
      | inl same ↦ rw same r
      | inr changed ↦ rw changed (record {
        payments = r.payments;
        keys = r.keys;
        invoices = r.invoices;
        workspaces = r.workspaces;
        clients = λ j.
            apart-put client_id j client snap.status (some now) user_id t.clients
              (lookup client_id s.clients) known (r.clients client_id)
            ∙ r.clients j;
        invoice_events = r.invoice_events;
        credit_events = and_then r.credit_events;
      })
    ]
