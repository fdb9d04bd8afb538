-- ===== src/Reconciliation/Service/Membership.antt =====
-- The memberships of completed reconciliations: an entry is in at most one, and stays in it.
use personal_finance_public.Base.{
  String, ℕ, true, false, ◌≡◌, refl, ap, Option, List, [], ◌∷◌, any, map, arith, ok, ◌==◌,
}
use personal_finance_public.Domain.Account.{Account}
use personal_finance_public.Domain.Transaction.{Transaction, TransactionStatus}
use personal_finance_public.Storage.Exec.{Exec}
use personal_finance_public.Storage.Schema.{
  Db, RecordState, TransactionRecord, ReconciliationRecord, ReconciliationEntryRecord,
}
use personal_finance_public.Storage.Schema.Statements.{
  guarded_update, set_state, insert_reconciliation, insert_reconciliation_entry,
}
use personal_finance_public.Storage.World.{Env, World}
use personal_finance_public.Storage.World.Rules.{Preorder, Accepts, Keeps, Keeps-bind, keeps_rules}
use personal_finance_public.Ledger.Audit.{Outcome, AuditOnly}
use personal_finance_public.Ledger.Calls.Clean.{Unchanged, Unchanged-preorder}
use personal_finance_public.Reconciliation.{Reconciliation, mem, distinct}
use personal_finance_public.Reconciliation.Repository
use personal_finance_public.Reconciliation.Repository.{
  get_account, prior_completed_cents, already_completed, is_completed, add_memberships,
  add_completed, reconcilable_accounts, transactions_for_entries, is_voided, move_row,
  set_transaction_state,
}
use personal_finance_public.Reconciliation.Service.{
  ReconciliationAuditWriter, ReconciliationRequest, draft_of, project_each,
  project_affected_transactions, record_failure, complete_body, complete,
}

-- The entries of completed reconciliations.
abbrev pub members : Db → List String
members db = map (λ m. m.entry_id) db.reconciliation_entries

-- The unique index is kept, and no membership is lost.
pub record MembersGrow (db db' : Db) : Type 0 where
  pub unique : distinct (members db) ≡ true → distinct (members db') ≡ true
  pub kept : (i : String) → already_completed i db ≡ true → already_completed i db' ≡ true

pub MembersGrow-preorder : Preorder MembersGrow
MembersGrow-preorder = record {
  reflexive = λ a. record { unique = λ h. h; kept = λ i h. h };
  transitive = λ a b c p q. record {
    unique = λ h. q.unique (p.unique h);
    kept = λ i h. q.kept i (p.kept i h);
  };
}

same-MembersGrow :
    (db db' : Db) → db'.reconciliation_entries ≡ db.reconciliation_entries → MembersGrow db db'
same-MembersGrow db db' same = record { unique = λ h. rw same h; kept = λ i h. rw same h }

set_state-MembersGrow :
    (i : String) (s : RecordState) (t : Option ℕ) → Accepts MembersGrow (set_state i s t)
unfolding set_state guarded_update
set_state-MembersGrow i s t = record {
  accepts = λ db db' h. same-MembersGrow db db' (ground arith);
}

insert_reconciliation-MembersGrow :
    (r : ReconciliationRecord) → Accepts MembersGrow (insert_reconciliation r)
unfolding insert_reconciliation
insert_reconciliation-MembersGrow r = record {
  accepts = λ db db' h. same-MembersGrow db db' (ground arith);
}

mem-members :
    (i : String) (rows : List ReconciliationEntryRecord)
    → mem i (map (λ m. m.entry_id) rows) ≡ any (λ m. m.entry_id == i) rows
mem-members i [] = refl
mem-members i (m ∷ rows) = ground (arith, mem-members i rows)

pub insert_member-ok :
    (r : ReconciliationEntryRecord) (db : Db) {db' : Db}
    → insert_reconciliation_entry r db ≡ ok db'
    → (already_completed r.entry_id db ≡ false)
      × (db'.reconciliation_entries ≡ r ∷ db.reconciliation_entries)
unfolding insert_reconciliation_entry
insert_member-ok r db h = (ground arith, ground arith)

insert_member-MembersGrow :
    (r : ReconciliationEntryRecord) → Accepts MembersGrow (insert_reconciliation_entry r)
insert_member-MembersGrow r = record {
  accepts = λ db db' h.
      let (new, rows) = insert_member-ok r db h in
      rw rows (record {
        unique = λ u. ground (arith, u, new, mem-members r.entry_id db.reconciliation_entries);
        kept = λ i k. ground (arith, k);
      });
}

AuditOnly-MembersGrow : {A : Type 0} (m : Exec World A) → Keeps AuditOnly m → Keeps MembersGrow m
AuditOnly-MembersGrow m k = record {
  at = λ w.
      same-MembersGrow w.db (m w).1.db (ap (λ d. d.reconciliation_entries) (k.at w).only_audit);
}

ruleset rules = (
  keeps_rules, MembersGrow-preorder, set_state-MembersGrow, insert_reconciliation-MembersGrow,
  insert_member-MembersGrow,
)

move_row-MembersGrow :
    (s : TransactionStatus) (r : TransactionRecord) → Keeps MembersGrow (move_row s r)
move_row-MembersGrow s r = search rules

set_transaction_state-MembersGrow :
    (s i : String) (x : TransactionStatus) → Keeps MembersGrow (set_transaction_state s i x)
unfolding set_transaction_state
set_transaction_state-MembersGrow s i x = search (rules, move_row-MembersGrow)

project_each-MembersGrow :
    (s : String) (accounts : List Account) (ts : List Transaction)
    → Keeps MembersGrow (project_each s accounts ts)
unfolding project_each
project_each-MembersGrow s accounts [] = search rules
project_each-MembersGrow s accounts (t ∷ ts) =
    Keeps-bind MembersGrow-preorder _ _ (search rules) (λ _.
      Keeps-bind MembersGrow-preorder _ _ (search (rules, set_transaction_state-MembersGrow)) (λ _.
        Keeps-bind MembersGrow-preorder _ _ (project_each-MembersGrow s accounts ts)
          (λ _. search rules)))

pub project_affected-MembersGrow :
    (s : String) (ids : List String) → Keeps MembersGrow (project_affected_transactions s ids)
unfolding project_affected_transactions reconcilable_accounts transactions_for_entries
project_affected-MembersGrow s ids = search (rules, project_each-MembersGrow) depth 12

pub add_memberships-MembersGrow :
    (s id : String) (ids : List String) → Keeps MembersGrow (add_memberships s id ids)
unfolding add_memberships
add_memberships-MembersGrow s id [] = search rules
add_memberships-MembersGrow s id (i ∷ ids) =
    Keeps-bind MembersGrow-preorder _ _ (search rules) (λ _. add_memberships-MembersGrow s id ids)

add_completed-MembersGrow : (r : Reconciliation) (t : ℕ) → Keeps MembersGrow (add_completed r t)
unfolding add_completed
add_completed-MembersGrow r t = search (rules, add_memberships-MembersGrow) depth 12

pub draft_of-Unchanged : (id : String) (q : ReconciliationRequest) → Keeps Unchanged (draft_of id q)
unfolding draft_of Repository.list_candidates prior_completed_cents get_account
draft_of-Unchanged id q = search (keeps_rules, Unchanged-preorder) depth 24

draft_of-MembersGrow : (id : String) (q : ReconciliationRequest) → Keeps MembersGrow (draft_of id q)
draft_of-MembersGrow id q = record {
  at = λ w.
      same-MembersGrow w.db (draft_of id q w).1.db
        (ap (λ d. d.reconciliation_entries) ((draft_of-Unchanged id q).at w).same);
}

module _ (env : Env) (writer : ReconciliationAuditWriter) where
  pub writer-MembersGrow :
      (o : Outcome) (s : String) (i : Option String) (c : String)
      → Keeps MembersGrow (writer.record_outcome o s i c)
  writer-MembersGrow o s i c = AuditOnly-MembersGrow _ (writer.audit_only o s i c)

  complete_body-MembersGrow :
      (id : String) (q : ReconciliationRequest) (c : String)
      → Keeps MembersGrow (complete_body env writer id q c)
  unfolding complete_body
  complete_body-MembersGrow id q c =
      search
        (
          rules, writer-MembersGrow, draft_of-MembersGrow, add_completed-MembersGrow,
          project_affected-MembersGrow,
        )
        depth 20

  complete-MembersGrow :
      (q : ReconciliationRequest) (c : String) → Keeps MembersGrow (complete env writer q c)
  unfolding complete record_failure
  complete-MembersGrow q c = search (rules, writer-MembersGrow, complete_body-MembersGrow) depth 16

  -- If no entry is in two completed reconciliations, none is after a completion, however it ends.
  pub complete-distinct :
      (q : ReconciliationRequest) (c : String) (w : World)
      → distinct (members w.db) ≡ true
      → distinct (members (complete env writer q c w).1.db) ≡ true
  complete-distinct q c w = ((complete-MembersGrow q c).at w).unique
