-- ===== src/Cheques/Runs.antt =====
-- Sequences of calls of services/pdc_service.py against the machine of a cheque.
use rezorpay_pro.Common.{
  ℕ, Option, none, some, List, [], ◌∷◌, ◌≡◌, sym, ap, ◌∙◌, subst, lookup, put, lookup-put_self,
  lookup-put_ne, nat_eq, ◌==◌, ==_iff, Result, ok, err, inl, inr, Bool-cases, Result-cases,
}
use rezorpay_pro.Stock.Ledger.{User}
use rezorpay_pro.Receivable.{
  PdcStatus, deposited, cleared, bounced, returned, Payment, ReceivableStore,
}
use rezorpay_pro.Cheques.{deposit, clear, bounce, return_cheque}
use rezorpay_pro.Cheques.Machine.{Move, stand_at}
use rezorpay_pro.Cheques.Moves.{
  Moves, deposit-Moves, clear-Moves, bounce-Moves, return_cheque-Moves,
}

-- The four calls, and a call with its arguments.
pub data Action : Type 0 where
  deposits clears bounces returns : Action

pub record Call : Type 0 where
  pub action : Action
  pub now : ℕ
  pub workspace_id : ℕ
  pub invoice_id : ℕ
  pub payment_id : ℕ
  pub user : User

unfoldable pub act : Action → ℕ → ℕ → ℕ → ℕ → User → ReceivableStore → Result ReceivableStore
unfolding deposit clear bounce return_cheque
act deposits now workspace_id invoice_id payment_id user s =
    deposit now workspace_id invoice_id payment_id user s
act clears now workspace_id invoice_id payment_id user s =
    clear now workspace_id invoice_id payment_id user s
act bounces now workspace_id invoice_id payment_id user s =
    bounce now workspace_id invoice_id payment_id user s
act returns now workspace_id invoice_id payment_id user s =
    return_cheque now workspace_id invoice_id payment_id user s

-- Where a call is to bring the cheque.
abbrev pub goal : Action → PdcStatus
goal deposits = deposited
goal clears = cleared
goal bounces = bounced
goal returns = returned

-- Every call that returns implements the machine: it found the payment of the id that it was given, and
-- either made the one move of the machine that brings the cheque where the call is to bring it, or left
-- the store as it was, since the cheque stood there already or, for clear, was paid. Of a move the row
-- of the payment gets the two statuses that go with it, and all other payments, the idempotency
-- keys and the workspaces stay; invoices stay but for their status, clients but for their credit
-- standing, and the two logs of events at most get new entries.
pub act-Moves :
    (action : Action) (now workspace_id invoice_id payment_id : ℕ) (user : User)
    (s s' : ReceivableStore)
    → act action now workspace_id invoice_id payment_id user s ≡ ok s'
    → (p : Payment) × Moves (goal action) payment_id p s s'
unfolding act
act-Moves deposits now workspace_id invoice_id payment_id user s s' h =
    deposit-Moves now workspace_id invoice_id payment_id user s s' h
act-Moves clears now workspace_id invoice_id payment_id user s s' h =
    clear-Moves now workspace_id invoice_id payment_id user s s' h
act-Moves bounces now workspace_id invoice_id payment_id user s s' h =
    bounce-Moves now workspace_id invoice_id payment_id user s s' h
act-Moves returns now workspace_id invoice_id payment_id user s s' h =
    return_cheque-Moves now workspace_id invoice_id payment_id user s s' h

-- A request that fails leaves the store.
abbrev pub or_keep : ReceivableStore → Result ReceivableStore → ReceivableStore
or_keep s (err raised) = s
or_keep s (ok t) = t

abbrev pub request : Call → ReceivableStore → ReceivableStore
request c s = or_keep s (act c.action c.now c.workspace_id c.invoice_id c.payment_id c.user s)

unfoldable pub requests : List Call → ReceivableStore → ReceivableStore
unfolding act
requests [] s = s
requests (c ∷ cs) s = requests cs (request c s)

-- The cheque as it may stand after some moves.
pub data Reaches : Option PdcStatus → Option PdcStatus → Type 0 where
  stays : {o : Option PdcStatus} → Reaches o o
  moves :
      {m n : PdcStatus} {o : Option PdcStatus} → Move m n → Reaches (some n) o → Reaches (some m) o

abbrev pub pdc_of : Option Payment → Option PdcStatus
pdc_of none = none
pdc_of (some p) = p.pdc_status

abbrev pub cheque_at : ℕ → ReceivableStore → Option PdcStatus
cheque_at id s = pdc_of (lookup id s.payments)

one-Move :
    (a b c : Option PdcStatus) (m n : PdcStatus)
    → a ≡ some m
    → b ≡ some n
    → Move m n
    → Reaches b c
    → Reaches a c
one-Move a b c m n e f move r =
    subst (λ x. Reaches x c) (sym e) (moves move (subst (λ x. Reaches x c) f r))

request-Reaches :
    (c : Call) (id : ℕ) (s : ReceivableStore) (o : Option PdcStatus)
    → Reaches (cheque_at id (request c s)) o
    → Reaches (cheque_at id s) o
request-Reaches c id s o r =
    elim (Result-cases (act c.action c.now c.workspace_id c.invoice_id c.payment_id c.user s)) [
      | inr (raised, e) ↦ rw e at r
      | inl (t, e) ↦
          let (p, (found, either)) =
            act-Moves c.action c.now c.workspace_id c.invoice_id c.payment_id c.user s t e in
          let r₁ : Reaches (cheque_at id t) o = rw e at r in
          elim either [
            | inl (same, done) ↦ subst (λ x. Reaches (cheque_at id x) o) (sym same) r₁
            | inr (m, there) ↦ elim (Bool-cases (c.payment_id == id)) [
              | inr other ↦
                  subst (λ x. Reaches x o)
                    (ap (λ x. pdc_of (lookup id x)) m.rest.payments
                      ∙ ap pdc_of
                          (lookup-put_ne c.payment_id id (stand_at m.after p) s.payments other))
                    r₁
              | inl here ↦
                  let eq = (==_iff c.payment_id id).0 here in
                  one-Move (cheque_at id s) (cheque_at id t) o m.before m.after
                    (ap pdc_of (subst (λ i. lookup i s.payments ≡ some p) eq found) ∙ m.stood)
                    (ap (λ x. pdc_of (lookup id x)) m.rest.payments
                      ∙ subst
                          (λ i.
                            pdc_of (lookup id (put i (stand_at m.after p) s.payments))
                            ≡ some m.after)
                          (sym eq) (ap pdc_of (lookup-put_self id (stand_at m.after p) s.payments)))
                    m.move r₁
            ]
          ]
    ]

-- However many calls are made, by whomever, for whatever payments and whether they fail or not, a cheque
-- comes only where the machine can bring it.
pub requests-Reaches :
    (cs : List Call) (id : ℕ) (s : ReceivableStore)
    → Reaches (cheque_at id s) (cheque_at id (requests cs s))
unfolding requests
requests-Reaches [] id s = stays
requests-Reaches (c ∷ cs) id s =
    request-Reaches c id s (cheque_at id (requests cs (request c s)))
      (requests-Reaches cs id (request c s))
