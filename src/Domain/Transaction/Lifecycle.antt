-- ===== src/Domain/Transaction/Lifecycle.antt =====
-- The lifecycle of backend/app/ledger/domain/transaction.py as a relation on transactions.
use personal_finance_public.Base.{String, ℕ, ◌≤◌, ◌≡◌, refl, Option, arith, ok}
use personal_finance_public.Domain.Transaction.{
  Date, Transaction, TransactionStatus, draft, posted, reconciled, voided, revise, reconcile, void,
}

-- One successful call of a method of `Transaction`.
pub data Step (t u : Transaction) : Type 0 where
  by_revise :
      (economic_date : Date) (description : Option String)
      → revise t economic_date description ≡ ok u
      → Step t u
  by_reconcile : reconcile t ≡ ok u → Step t u
  by_void : void t ≡ ok u → Step t u

pub data Reach (t : Transaction) : Transaction → Type 0 where
  here : Reach t t
  next : {u v : Transaction} → Reach t u → Step u v → Reach t v

abbrev pub rank : TransactionStatus → ℕ
rank draft = 0
rank posted = 1
rank reconciled = 2
rank voided = 3

-- What history keeps: the identity, kind and entries always, and everything but the status once
-- the transaction is posted.
pub record Keeps (t u : Transaction) : Type 0 where
  pub same_id : u.id ≡ t.id
  pub same_space : u.space_id ≡ t.space_id
  pub same_kind : u.kind ≡ t.kind
  pub same_entries : u.entries ≡ t.entries
  pub same_cash_date : u.cash_date ≡ t.cash_date
  pub forward : rank t.status ≤ rank u.status

Step-Keeps : {t u : Transaction} → Step t u → Keeps t u
unfolding revise reconcile void
Step-Keeps {t} {u} (by_revise economic_date description h) = ground arith
Step-Keeps {t} {u} (by_reconcile h) = ground arith
Step-Keeps {t} {u} (by_void h) = ground arith

Keeps-trans : {t u v : Transaction} → Keeps t u → Keeps u v → Keeps t v
Keeps-trans {t} {u} {v} h k = ground arith

-- Whatever methods succeed on a transaction, its identity, kind, cash date and entries stay, and
-- its status never moves back.
pub Reach-Keeps : {t u : Transaction} → Reach t u → Keeps t u
Reach-Keeps {t} here = ground arith
Reach-Keeps {t} (next r s) = Keeps-trans (Reach-Keeps r) (Step-Keeps s)

abbrev pub SamePosted : Transaction → Transaction → Type 0
SamePosted t u = (u.economic_date ≡ t.economic_date) × (u.description ≡ t.description)

Step-SamePosted :
    {t u : Transaction} → 1 ≤ rank t.status → Step t u → SamePosted t u × (1 ≤ rank u.status)
unfolding revise reconcile void
Step-SamePosted {t} {u} p (by_revise economic_date description h) = ground arith
Step-SamePosted {t} {u} p (by_reconcile h) = ground arith
Step-SamePosted {t} {u} p (by_void h) = ground arith

-- After posting, the economic date and the description are fixed.
pub Reach-SamePosted :
    {t u : Transaction} → 1 ≤ rank t.status → Reach t u → SamePosted t u × (1 ≤ rank u.status)
Reach-SamePosted p here = ((refl, refl), p)
Reach-SamePosted {t} {u} p (next r s) =
    ground (arith, Reach-SamePosted p r, Step-SamePosted (Reach-SamePosted p r).1 s)

-- A voided transaction admits no method at all.
pub voided_terminal : {t u : Transaction} → t.status ≡ voided → ¬ Step t u
unfolding revise reconcile void
voided_terminal {t} e (by_revise economic_date description h) = ground arith
voided_terminal {t} e (by_reconcile h) = ground arith
voided_terminal {t} e (by_void h) = ground arith
