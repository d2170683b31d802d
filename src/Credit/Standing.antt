-- ===== src/Credit/Standing.antt =====
-- What `evaluate` of services/credit_control_service.py leaves a client with.
use rezorpay_pro.Common.{
  ℕ, zero_ℤ, true, false, Option, some, List, [], ◌∷◌, ◌≡◌, ◌⊎◌, refl, ap, ◌∙◌, lookup, put,
  lookup-put_self, nat_eq, ltb_ℤ, inl, inr, Bool-cases, Table, arith,
}
use rezorpay_pro.Receivable.{
  Invoice, overdue, Client, Workspace, CreditStatus, CreditEventReason, CreditStatusEvent,
  ReceivableStore,
}
use rezorpay_pro.Credit.{Open, due_of}
use rezorpay_pro.Credit.Evaluate.{
  CreditSnapshot, change_event, flip_row, flip_past_due, past_due_select, apply_overdue_client,
  snapshot, persist_change, evaluate, same_credit,
}

same_credit-eq : (a b : CreditStatus) → same_credit a b ≡ true → a ≡ b
same_credit-eq a b h = grind arith

-- The flip writes invoices alone.
module _ {X : Type 0} (f : ReceivableStore → X)
    (blind : (s : ReceivableStore) (t : Table ℕ Invoice)
      → f (record s { invoices = t }) ≡ f s) where
  row_keeps : (row : Open) (acc : ℕ × ReceivableStore) → f (flip_row row acc).1 ≡ f acc.1
  row_keeps row (n, t) = elim (Bool-cases (ltb_ℤ zero_ℤ (due_of t.payments row))) [
    | inr settled ↦ rw settled refl
    | inl owing ↦ rw owing (blind t (put row.0 (record row.1 { status = overdue }) t.invoices))
  ]

  flip_keeps :
      (rows : List Open) (acc : ℕ × ReceivableStore) → f (flip_past_due rows acc).1 ≡ f acc.1
  unfolding flip_past_due
  flip_keeps [] acc = refl
  flip_keeps (row ∷ rows) acc = flip_keeps rows (flip_row row acc) ∙ row_keeps row acc

  apply_keeps :
      (now workspace_id client_id : ℕ) (s : ReceivableStore)
      → f (apply_overdue_client now workspace_id client_id s).1 ≡ f s
  unfolding apply_overdue_client
  apply_keeps now workspace_id client_id s =
      flip_keeps (past_due_select now workspace_id (some client_id) s) (0, s)

-- The row of the client after an evaluation, and the events: the status is that of the snapshot, which
-- is the snapshot of the store as it is left, and a change of status is one more event with both
-- statuses, while without a change the row and the events stay.
pub record Evaluated (now client_id : ℕ) (client : Client) (workspace_id : ℕ)
    (workspace : Workspace) (s s' : ReceivableStore) (snap : CreditSnapshot) : Type 0 where
  pub row : Client
  pub stored : lookup client_id s'.clients ≡ some row
  pub standing : row.credit_status ≡ snap.status
  pub current : snapshot now client_id client workspace_id workspace s' ≡ snap
  pub traced :
      ((row ≡ client) × (s'.credit_events ≡ s.credit_events))
      ⊎ ((event : CreditStatusEvent) × (s'.credit_events ≡ event ∷ s.credit_events)
          × (event.client_id ≡ client_id)
          × (event.previous_status ≡ client.credit_status)
          × (event.new_status ≡ snap.status)
          × (same_credit client.credit_status snap.status ≡ false))

-- An evaluation of a client leaves its row with the status of the snapshot that it returns, which is
-- the snapshot of the store as it is left; it adds one event with the old and the new status if they
-- differ, and otherwise leaves the row and the events.
pub evaluate-Evaluated :
    (now client_id : ℕ) (client : Client) (workspace_id : ℕ) (workspace : Workspace)
    (user_id : Option ℕ) (reason : CreditEventReason) (s : ReceivableStore)
    → lookup client_id s.clients ≡ some client
    → Evaluated now client_id client workspace_id workspace s
        (evaluate now client_id client workspace_id workspace user_id reason s).1
        (evaluate now client_id client workspace_id workspace user_id reason s).0
unfolding evaluate persist_change snapshot
evaluate-Evaluated now client_id client workspace_id workspace user_id reason s found =
    let t = (apply_overdue_client now workspace_id client_id s).1 in
    let snap = snapshot now client_id client workspace_id workspace t in
    let clients =
      apply_keeps (λ (x : ReceivableStore). x.clients) (λ x y. refl) now workspace_id client_id s in
    let events =
      apply_keeps (λ (x : ReceivableStore). x.credit_events) (λ x y. refl) now workspace_id
        client_id s in
    elim (Bool-cases (same_credit client.credit_status snap.status)) [
      | inl same ↦ rw same (record {
        row = client;
        stored = ap (lookup client_id) clients ∙ found;
        standing = same_credit-eq client.credit_status snap.status same;
        current = refl;
        traced = inl (refl, events);
      })
      | inr changed ↦ rw changed (record {
        row = record client {
          credit_status = snap.status;
          credit_status_changed_at = some now;
          credit_status_changed_by = user_id;
        };
        stored = lookup-put_self client_id _ t.clients;
        standing = refl;
        current = refl;
        traced = inr (
          change_event now client_id client workspace_id snap user_id reason,
          ap (λ x. change_event now client_id client workspace_id snap user_id reason ∷ x) events,
          refl,
          refl,
          refl,
          changed,
        );
      })
    ]
