-- ===== src/Reconciliation/Service/Growth.antt =====
-- The reconciliation service under the relation `Grows`.
use personal_finance_public.Base.{
  String, ℕ, true, ◌≡◌, Option, some, List, [], ◌∷◌, All, arith, ok, ◌⊎◌, Bool-cases, Option-cases,
  inl, inr, >>=-eq-ok,
}
use personal_finance_public.Domain.Account.{Account}
use personal_finance_public.Domain.Transaction.{Transaction, TransactionStatus, is_active}
use personal_finance_public.Storage.Table.{lookup, key-lookup}
use personal_finance_public.Storage.Exec.{◌>>=◌}
use personal_finance_public.Storage.Schema.{
  Db, RecordState, is_history, TransactionRecord, transaction_keyed,
}
use personal_finance_public.Storage.Schema.Statements.{set_state}
use personal_finance_public.Storage.Schema.Soundness.{Grows, Kept-some}
use personal_finance_public.Storage.Schema.Updates.{enters_posted, set_state-Grows}
use personal_finance_public.Storage.Schema.Others.{Grows-preorder, grows_rules}
use personal_finance_public.Storage.World.{Env, World, query}
use personal_finance_public.Storage.World.Rules.{
  Keeps, keeps_rules, Keeps-bind, execute_at, bind_at,
}
use personal_finance_public.Ledger.Audit.{Outcome, Keeps-AuditOnly-Grows}
use personal_finance_public.Ledger.Projection.{project_transaction_state}
use personal_finance_public.Ledger.Projection.Progress.{project-is_active}
use personal_finance_public.Ledger.Repository.Transactions.{
  transaction_row, status_of, transaction_of,
}
use personal_finance_public.Reconciliation.{Reconciliation}
use personal_finance_public.Reconciliation.Repository
use personal_finance_public.Reconciliation.Repository.{
  get_account, prior_completed_cents, add_memberships, add_completed, reconcilable_accounts,
  transactions_for_entries, transaction_ids, read_transaction, read_transactions, state_of,
  is_voided, move_row, set_transaction_state, completed_entry_ids,
}
use personal_finance_public.Reconciliation.Service.{
  ReconciliationAuditWriter, ReconciliationRequest, draft_of, project_each,
  project_affected_transactions, record_failure, complete_body, complete,
}

-- A transaction that was read as history is still history in the database.
IsCurrent : Db → Transaction → Type 0
IsCurrent db t =
    is_history (state_of t.status) ≡ true
    → (r : TransactionRecord) × (lookup t.id db.transactions ≡ some r) × (is_history r.state ≡ true)

IsCurrent-Grows : (a b : Db) (t : Transaction) → Grows a b → IsCurrent a t → IsCurrent b t
unfolding IsCurrent
IsCurrent-Grows a b t g current past =
    let (r, found, h) = current past in
    let (u, found', k) = Kept-some r _ (g.preserves.kept t.id r found h) in (u, found', k.2)

All-IsCurrent-Grows :
    (a b : Db) (ts : List Transaction) → Grows a b → All (IsCurrent a) ts → All (IsCurrent b) ts
All-IsCurrent-Grows a b [] g h = tt
All-IsCurrent-Grows a b (t ∷ ts) g (h, rest) =
    (IsCurrent-Grows a b t g h, All-IsCurrent-Grows a b ts g rest)

row-lookup :
    (s i : String) (db : Db) (r : TransactionRecord)
    → transaction_row s i db ≡ some r
    → lookup i db.transactions ≡ some r
unfolding transaction_row
row-lookup s i db r h = ground arith

status-history :
    (a : RecordState) (s : TransactionStatus)
    → status_of a ≡ ok s
    → is_history (state_of s) ≡ true
    → is_history a ≡ true
unfolding status_of
status-history a s h past = ground arith

read-IsCurrent :
    (s i : String) (db : Db) {t : Transaction}
    → read_transaction s db (transaction_row s i db) ≡ ok t
    → IsCurrent db t
unfolding IsCurrent transaction_of
read-IsCurrent s i db {t} h past = elim (Option-cases (transaction_row s i db)) [
  | inl absent ↦ absurd (ground (arith, absent, h))
  | inr (r, found) ↦
      let at = row-lookup s i db r found in
      let key : r.id ≡ i = key-lookup i db.transactions at in
      let (status, read, made) = >>=-eq-ok (status_of r.state) _ (rw found at h) in
      let same : t.id ≡ r.id = ground (arith, made) in
      let states : t.status ≡ status = ground (arith, made) in
      (r, cc (at, key, same), status-history r.state status read (rw states at past))
]

read-All-IsCurrent :
    (s : String) (db : Db) (ids : List String) {ts : List Transaction}
    → read_transactions s db ids ≡ ok ts
    → All (IsCurrent db) ts
unfolding read_transactions
read-All-IsCurrent s db [] {ts} h = let e : ts ≡ [] = ground arith in rw e tt
read-All-IsCurrent s db (i ∷ ids) {ts} h =
    let (t, first, h1) = >>=-eq-ok (read_transaction s db (transaction_row s i db)) _ h in
    let (rest, others, h2) = >>=-eq-ok (read_transactions s db ids) _ h1 in
    let e : ts ≡ t ∷ rest = ground (arith, h2) in
    rw e (read-IsCurrent s i db first, read-All-IsCurrent s db ids others)

enters-active :
    (p s : TransactionStatus) (old : RecordState)
    → is_active p ≡ is_active s
    → (is_active s ≡ true) ⊎ (p ≡ s)
    → (is_history (state_of s) ≡ true → is_history old ≡ true)
    → enters_posted old (state_of p) ≡ true
enters-active p s old same either h = ground arith

enters-projected :
    (t : Transaction) (accounts : List Account) (done : List String) (old : RecordState)
    → (is_history (state_of t.status) ≡ true → is_history old ≡ true)
    → enters_posted old (state_of (project_transaction_state t accounts done)) ≡ true
enters-projected t accounts done old h =
    let (same, either) = project-is_active t accounts done in
    enters-active (project_transaction_state t accounts done) t.status old same either h

move_row-Grows :
    (t : Transaction) (accounts : List Account) (done : List String) (w : World)
    (r : TransactionRecord)
    → IsCurrent w.db t
    → lookup t.id w.db.transactions ≡ some r
    → Grows w.db (move_row (project_transaction_state t accounts done) r w).1.db
unfolding IsCurrent
move_row-Grows t accounts done w r current found =
    let state = state_of (project_transaction_state t accounts done) in
    let key : r.id ≡ t.id = key-lookup t.id w.db.transactions found in
    elim (Bool-cases (is_voided r.state)) [
      | inl is_void ↦ rw is_void (Grows-preorder.reflexive w.db)
      | inr other ↦ rw other (
          execute_at Grows-preorder w (set_state r.id state r.posted_at) (λ db' h.
            set_state-Grows r.id state r.posted_at w.db db'
              (λ old at.
                enters-projected t accounts done old.state
                  (λ past. let (u, at', h') = current past in ground (arith, at, at', h', key)))
              h))
    ]

set_state_found-Grows :
    (s : String) (t : Transaction) (accounts : List Account) (done : List String) (w : World)
    → IsCurrent w.db t
    → Grows w.db (set_transaction_state s t.id (project_transaction_state t accounts done) w).1.db
unfolding set_transaction_state ◌>>=◌
set_state_found-Grows s t accounts done w current =
    elim (Option-cases (transaction_row s t.id w.db)) [
      | inl absent ↦ rw absent (Grows-preorder.reflexive w.db)
      | inr (r, found) ↦
          rw found (move_row-Grows t accounts done w r current (row-lookup s t.id w.db r found))
    ]

project_each-at :
    (s : String) (accounts : List Account) (ts : List Transaction) (w : World)
    → All (IsCurrent w.db) ts
    → Grows w.db (project_each s accounts ts w).1.db
unfolding project_each
project_each-at s accounts [] w current = Grows-preorder.reflexive w.db
project_each-at s accounts (t ∷ ts) w (current, rest) =
    bind_at Grows-preorder w (query (completed_entry_ids s t.id)) _ (Grows-preorder.reflexive w.db)
      (λ done _.
        let moved = set_state_found-Grows s t accounts done w current in
        bind_at Grows-preorder w _ _ moved (λ _ _.
          let w' = (set_transaction_state s t.id (project_transaction_state t accounts done) w).1 in
          bind_at Grows-preorder w' (project_each s accounts ts) _
            (project_each-at s accounts ts w' (All-IsCurrent-Grows w.db w'.db ts moved rest))
            (λ _ _. Grows-preorder.reflexive _)))

read_then_project-Grows :
    (s : String) (ids : List String) (accounts : List Account)
    → Keeps Grows (transactions_for_entries s ids >>= project_each s accounts)
unfolding transactions_for_entries ◌>>=◌
read_then_project-Grows s ids accounts = record {
  at = λ w.
      bind_at Grows-preorder w (transactions_for_entries s ids) (project_each s accounts)
        (Grows-preorder.reflexive w.db)
        (λ ts read.
          project_each-at s accounts ts w
            (read-All-IsCurrent s w.db (transaction_ids s ids w.db) read));
}

ruleset rules = (keeps_rules, grows_rules)

pub project_affected-Grows :
    (s : String) (ids : List String) → Keeps Grows (project_affected_transactions s ids)
unfolding project_affected_transactions reconcilable_accounts
project_affected-Grows s ids = search (rules, read_then_project-Grows) depth 8

get_account-Grows : (s a : String) → Keeps Grows (get_account s a)
unfolding get_account
get_account-Grows s a = search rules depth 12

pub draft_of-Grows : (id : String) (q : ReconciliationRequest) → Keeps Grows (draft_of id q)
unfolding draft_of Repository.list_candidates prior_completed_cents
draft_of-Grows id q = search (rules, get_account-Grows) depth 16

add_memberships-Grows : (s id : String) (ids : List String) → Keeps Grows (add_memberships s id ids)
unfolding add_memberships
add_memberships-Grows s id [] = search rules
add_memberships-Grows s id (i ∷ ids) =
    Keeps-bind Grows-preorder _ _ (search rules) (λ _. add_memberships-Grows s id ids)

add_completed-Grows : (r : Reconciliation) (t : ℕ) → Keeps Grows (add_completed r t)
unfolding add_completed
add_completed-Grows r t = search (rules, add_memberships-Grows) depth 12

module _ (env : Env) (writer : ReconciliationAuditWriter) where
  writer-Grows :
      (o : Outcome) (s : String) (i : Option String) (c : String)
      → Keeps Grows (writer.record_outcome o s i c)
  writer-Grows o s i c = Keeps-AuditOnly-Grows _ (writer.audit_only o s i c)

  complete_body-Grows :
      (id : String) (q : ReconciliationRequest) (c : String)
      → Keeps Grows (complete_body env writer id q c)
  unfolding complete_body
  complete_body-Grows id q c =
      search (rules, writer-Grows, draft_of-Grows, add_completed-Grows, project_affected-Grows)
        depth 20

  -- However it ends, completing a reconciliation keeps the ledger sound and its history as it is,
  -- but for the allowed changes of state.
  pub complete-Grows :
      (q : ReconciliationRequest) (c : String) → Keeps Grows (complete env writer q c)
  unfolding complete record_failure
  complete-Grows q c = search (rules, writer-Grows, complete_body-Grows) depth 16
