-- ===== src/Credit/Evaluate.antt =====
-- The calls of services/credit_control_service.py that change rows. Queries see what the session has
-- changed: it does not flush before them (database.py), but the one status that a caller leaves
-- unflushed is that of an invoice whose balance they read afresh.
use rezorpay_pro.Common.{
  ℕ, ℤ, zero_ℤ, Bool, true, false, ◌&&◌, not, Option, none, some, List, [], ◌∷◌, ltb, ltb_ℤ, suc,
  zero, ◌==◌, if◌then◌else◌, select, put, lookup, nat_eq, Result, ok, http, not_found, credit_hold,
  ◌>>=◌, ◌>>◌, raise_if, or_raise,
}
use rezorpay_pro.Receivable.{
  Invoice, overdue, Client, Workspace, CreditStatus, active, warning, hold, CreditEventReason,
  CreditStatusEvent, ReceivableStore,
}
use rezorpay_pro.Credit.{
  Open, is_flip, utc_today, effective_limit, decide_status, exposure, oldest_overdue_days,
  open_ar_invoices, due_of, should_mark_overdue,
}

pub record CreditSnapshot : Type 0 where
  pub status : CreditStatus
  pub exposure : ℤ
  pub effective_limit : ℤ
  pub oldest_overdue_days : Option ℕ
  pub credit_limit : Option ℤ
  pub payment_terms_days : ℕ

unfoldable pub snapshot : ℕ → ℕ → Client → ℕ → Workspace → ReceivableStore → CreditSnapshot
unfolding open_ar_invoices exposure oldest_overdue_days utc_today decide_status
snapshot now client_id client workspace_id workspace s =
    let invoices = open_ar_invoices workspace_id client_id s in
    let open_amount = exposure invoices s.payments in
    let oldest = oldest_overdue_days invoices s.payments (utc_today now) in
    record {
      status =
          decide_status open_amount (effective_limit client workspace) oldest
            workspace.credit_warning_days workspace.credit_hold_days;
      exposure = open_amount;
      effective_limit = effective_limit client workspace;
      oldest_overdue_days = oldest;
      credit_limit = client.credit_limit;
      payment_terms_days = client.payment_terms_days;
    }

abbrev pub is_client : Option ℕ → ℕ → Bool
is_client none client_id = true
is_client (some wanted) client_id = client_id == wanted

abbrev pub is_past_due : ℕ → ℕ → Option ℕ → Invoice → Bool
is_past_due today workspace_id client_id invoice =
    (invoice.workspace_id == workspace_id)
    && not invoice.is_deleted
    && is_flip invoice.status
    && ltb invoice.due_date today
    && is_client client_id invoice.client_id

unfoldable pub past_due_select : ℕ → ℕ → Option ℕ → ReceivableStore → List Open
unfolding utc_today
past_due_select now workspace_id client_id s =
    select (is_past_due (utc_today now) workspace_id client_id) s.invoices

-- The number of the invoices flipped, and the store.
abbrev pub flip_row : Open → ℕ × ReceivableStore → ℕ × ReceivableStore
flip_row row (n, s) =
    if ltb_ℤ zero_ℤ (due_of s.payments row)
    then (suc n, record s { invoices = put row.0 (record row.1 { status = overdue }) s.invoices })
    else (n, s)

unfoldable pub flip_past_due : List Open → ℕ × ReceivableStore → ℕ × ReceivableStore
flip_past_due [] acc = acc
flip_past_due (row ∷ rows) acc = flip_past_due rows (flip_row row acc)

unfoldable pub apply_overdue_client : ℕ → ℕ → ℕ → ReceivableStore → ℕ × ReceivableStore
unfolding past_due_select flip_past_due
apply_overdue_client now workspace_id client_id s =
    flip_past_due (past_due_select now workspace_id (some client_id) s) (zero, s)

unfoldable pub apply_overdue_workspace : ℕ → ℕ → ReceivableStore → ℕ × ReceivableStore
unfolding past_due_select flip_past_due
apply_overdue_workspace now workspace_id s =
    flip_past_due (past_due_select now workspace_id none s) (zero, s)

-- Whether the invoice was flipped, and the store.
unfoldable pub apply_overdue_invoice : ℕ → ℕ → Invoice → ReceivableStore → Bool × ReceivableStore
unfolding should_mark_overdue utc_today
apply_overdue_invoice now id invoice s =
    if is_flip invoice.status && should_mark_overdue id invoice s.payments (utc_today now)
    then (true, record s { invoices = put id (record invoice { status = overdue }) s.invoices })
    else (false, s)

abbrev pub same_credit : CreditStatus → CreditStatus → Bool
same_credit active active = true
same_credit warning warning = true
same_credit hold hold = true
same_credit _ _ = false

abbrev pub change_event :
    ℕ → ℕ → Client → ℕ → CreditSnapshot → Option ℕ → CreditEventReason → CreditStatusEvent
change_event now client_id client workspace_id snap user_id reason = record {
  client_id = client_id;
  workspace_id = workspace_id;
  previous_status = client.credit_status;
  new_status = snap.status;
  exposure = snap.exposure;
  effective_limit = snap.effective_limit;
  oldest_overdue_days = snap.oldest_overdue_days;
  reason = reason;
  changed_by = user_id;
  timestamp = now;
}

unfoldable pub persist_change :
    ℕ
    → ℕ
    → Client
    → ℕ
    → CreditSnapshot
    → Option ℕ
    → CreditEventReason
    → ReceivableStore
    → ReceivableStore
persist_change now client_id client workspace_id snap user_id reason s =
    let event = change_event now client_id client workspace_id snap user_id reason in
    let changed : Client = record client {
      credit_status = snap.status;
      credit_status_changed_at = some now;
      credit_status_changed_by = user_id;
    } in
    record s { clients = put client_id changed s.clients; credit_events = event ∷ s.credit_events }

-- The session is flushed at the end of the request; the newest event stands first.
unfoldable pub evaluate :
    ℕ
    → ℕ
    → Client
    → ℕ
    → Workspace
    → Option ℕ
    → CreditEventReason
    → ReceivableStore
    → CreditSnapshot × ReceivableStore
unfolding apply_overdue_client snapshot persist_change
evaluate now client_id client workspace_id workspace user_id reason s =
    let flipped = (apply_overdue_client now workspace_id client_id s).1 in
    let snap = snapshot now client_id client workspace_id workspace flipped in
    (
      snap,
      if same_credit client.credit_status snap.status
          then flipped
          else persist_change now client_id client workspace_id snap user_id reason flipped,
    )

unfoldable pub lock_client : ℕ → ℕ → ReceivableStore → Option Client
lock_client client_id workspace_id s = elim (lookup client_id s.clients) [
  | none ↦ none
  | some client ↦
      if (client.workspace_id == workspace_id) && not client.is_deleted then some client else none
]

unfoldable pub assert_not_hold :
    ℕ
    → ℕ
    → ℕ
    → Workspace
    → Option ℕ
    → CreditEventReason
    → ReceivableStore
    → Result (CreditSnapshot × ReceivableStore)
unfolding lock_client evaluate
assert_not_hold now client_id workspace_id workspace user_id reason s = do
  locked ← or_raise (lock_client client_id workspace_id s) (http 404 not_found)
  let (snap, t) = evaluate now client_id locked workspace_id workspace user_id reason s
  raise_if (same_credit snap.status hold) (http 400 credit_hold)
  ok (snap, t)
