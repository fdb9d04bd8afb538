-- ===== src/Reconciliation/Service/Completion.antt =====
-- What a completion writes to the memberships.
use personal_finance_public.Base.{
  Bool-cases, String, ℕ, true, false, not, ◌≡◌, refl, ap, ◌∙◌, sym, some, List, [], ◌∷◌, any, all,
  arith, ok, ◌==◌, ==_refl, inl, inr, duplicate_completed_membership, value_error,
}
use personal_finance_public.Storage.Exec.{lift}
use personal_finance_public.Storage.Schema.{Db, ReconciliationRecord, ReconciliationEntryRecord}
use personal_finance_public.Storage.Schema.Statements.{
  insert_reconciliation, insert_reconciliation_entry,
}
use personal_finance_public.Storage.World.{
  Env, World, Exit, uuid4, utc_now, execute, query, unit_of_work,
}
use personal_finance_public.Storage.World.Runs.{
  bind-ok, execute-ok, guard-ok, or_integrity-ok, unit_of_work-ok, on_exception-ok,
}
use personal_finance_public.Ledger.Audit.{success}
use personal_finance_public.Reconciliation.{Reconciliation, completed, mem, complete_reconciliation}
use personal_finance_public.Reconciliation.Balance.{complete_reconciliation-exact}
use personal_finance_public.Reconciliation.Repository.{
  already_completed, is_completed, add_memberships, add_completed,
}
use personal_finance_public.Reconciliation.Service.{
  ReconciliationAuditWriter, ReconciliationRequest, ReconciliationResult, draft_of,
  project_affected_transactions, complete_body, complete,
}
use personal_finance_public.Reconciliation.Service.Exactness.{
  IsDraftOf, draft_of-IsDraftOf, body-IsExact,
}
use personal_finance_public.Reconciliation.Service.Membership.{
  insert_member-ok, add_memberships-MembersGrow, project_affected-MembersGrow, draft_of-Unchanged,
  writer-MembersGrow,
}

-- The flushed memberships are in the database.
add_memberships-marks :
    (s id : String) (ids : List String) (w : World)
    → (add_memberships s id ids w).0 ≡ ok tt
    → (i : String) → mem i ids ≡ true
    → already_completed i (add_memberships s id ids w).1.db ≡ true
unfolding add_memberships
add_memberships-marks s id [] w h i m = absurd (ground (arith, m))
add_memberships-marks s id (j ∷ ids) w h i m =
    let row : ReconciliationEntryRecord = record {
      reconciliation_id = id;
      entry_id = j;
      space_id = s;
    } in
    let (_, done, e1) = bind-ok (execute (insert_reconciliation_entry row)) _ w h in
    let w1 = (execute (insert_reconciliation_entry row) w).1 in
    let (db', accepted, moved) = execute-ok (insert_reconciliation_entry row) w done in
    let (_, rows) = insert_member-ok row w.db accepted in
    let rest = add_memberships-marks s id ids w1 (ap (λ r. r.0) (sym e1) ∙ h) i in
    let now = ap (λ v. v.db.reconciliation_entries) moved ∙ rows in
    let grows = (add_memberships-MembersGrow s id ids).at w1 in
    rw e1 (elim (Bool-cases (j == i)) [
      | inl same ↦ grows.kept i (rw (now, same) refl)
      | inr other ↦ rest (ground (arith, other))
    ])

-- The selected entries were in no completed reconciliation, and are in one when `add_completed` ends.
add_completed-marks :
    (r : Reconciliation) (t : ℕ) (w : World)
    → (add_completed r t w).0 ≡ ok tt
    → (any (λ i. already_completed i w.db) r.selection ≡ false)
      × ((i : String)
          → mem i r.selection ≡ true
          → already_completed i (add_completed r t w).1.db ≡ true)
unfolding add_completed
add_completed-marks r t w h =
    let row : ReconciliationRecord = record {
      id = r.id;
      space_id = r.space_id;
      account_id = r.account_id;
      cutoff_date = r.cutoff_date;
      observed_balance_cents = r.observed_balance_cents;
      completed_at = t;
    } in
    let add = add_memberships r.space_id r.id r.selection in
    let (_, e1) = guard-ok (not (is_completed r.status)) value_error _ w h in
    let h1 = ap (λ x. x.0) (sym e1) ∙ h in
    let (found, absent, e2) =
      bind-ok (query (λ db. any (λ i. already_completed i db) r.selection)) _ w h1 in
    let h2 = ap (λ x. x.0) (sym e2) ∙ h1 in
    let (new, e3) = guard-ok found duplicate_completed_membership _ w h2 in
    let h3 = ap (λ x. x.0) (sym e3) ∙ h2 in
    let (_, _, e4) = bind-ok (execute (insert_reconciliation row)) _ w h3 in
    let w1 = (execute (insert_reconciliation row) w).1 in
    let h4 = ap (λ x. x.0) (sym e4) ∙ h3 in
    let (added, e5) = or_integrity-ok add duplicate_completed_membership w1 h4 in
    let whole = ap (λ x. x.1) (e1 ∙ e2 ∙ e3 ∙ e4) ∙ e5 in
    (
      ground (arith, absent, new),
      λ i m. rw whole (add_memberships-marks r.space_id r.id r.selection w1 added i m),
    )

-- The entries of a request are in no completed reconciliation of the first database, and are in one
-- of the second.
pub record Completes (ids : List String) (db db' : Db) : Type 0 where
  pub new : any (λ i. already_completed i db) ids ≡ false
  pub marked : all (λ i. already_completed i db') ids ≡ true

all-mem :
    (ids given : List String) (db : Db)
    → ((i : String) → mem i given ≡ true → already_completed i db ≡ true)
    → ((i : String) → mem i ids ≡ true → mem i given ≡ true)
    → all (λ i. already_completed i db) ids ≡ true
all-mem [] given db marked inside = refl
all-mem (i ∷ ids) given db marked inside =
    let here = marked i (inside i (ground (arith, ==_refl i))) in
    let rest = all-mem ids given db marked (λ j m. inside j (ground (arith, m))) in
    ground (arith, here, rest)

completed-selection :
    (id : String) (q : ReconciliationRequest) (db : Db) (d r : Reconciliation)
    → IsDraftOf id q db d
    → complete_reconciliation d ≡ ok r
    → r.selection ≡ q.entry_ids
completed-selection id q db d r drafted done =
    elim (complete_reconciliation-exact d drafted.valid) [
      | inl (made, _) ↦
          let same : r ≡ record d { status = completed } = cc (made, done) in
          ap (λ x. x.selection) same ∙ drafted.its_selection
      | inr (refused, _) ↦ absurd (cc (refused, done))
    ]

body-Completes :
    (env : Env) (writer : ReconciliationAuditWriter) (id : String) (q : ReconciliationRequest)
    (c : String) (w : World) {out : Exit ReconciliationResult}
    → (complete_body env writer id q c w).0 ≡ ok out
    → Completes q.entry_ids w.db (complete_body env writer id q c w).1.db
unfolding complete_body
body-Completes env writer id q c w h =
    let (d, drafted, e1) = bind-ok (draft_of id q) _ w h in
    let w1 = (draft_of id q w).1 in
    let h1 = ap (λ x. x.0) (sym e1) ∙ h in
    let (r, done, e2) = bind-ok (lift (complete_reconciliation d)) _ w1 h1 in
    let h2 = ap (λ x. x.0) (sym e2) ∙ h1 in
    let (at, _, e3) = bind-ok (utc_now env) _ w1 h2 in
    let w2 = (utc_now env w1).1 in
    let h3 = ap (λ x. x.0) (sym e3) ∙ h2 in
    let (_, added, e4) = bind-ok (add_completed r at) _ w2 h3 in
    let w3 = (add_completed r at w2).1 in
    let h4 = ap (λ x. x.0) (sym e4) ∙ h3 in
    let project = project_affected_transactions r.space_id r.selection in
    let (_, _, e5) = bind-ok project _ w3 h4 in
    let w4 = (project w3).1 in
    let h5 = ap (λ x. x.0) (sym e5) ∙ h4 in
    let outcome = writer.record_outcome success q.space_id (some r.id) c in
    let (_, _, e6) = bind-ok outcome _ w4 h5 in
    let (new, marked) = add_completed-marks r at w2 added in
    let chosen = completed-selection id q w.db d r (draft_of-IsDraftOf id q w drafted) done in
    let before = ((draft_of-Unchanged id q).at w).same in
    let ended = ap (λ x. x.1.db) (e1 ∙ e2 ∙ e3 ∙ e4 ∙ e5 ∙ e6) in
    record {
      new = rw (sym chosen, sym before) new;
      marked = rw ended (
          all-mem q.entry_ids r.selection (outcome w4).1.db
            (λ i m.
              ((writer-MembersGrow env writer success q.space_id (some r.id) c).at w4).kept i
                (((project_affected-MembersGrow r.space_id r.selection).at w3).kept i (marked i m)))
            (λ i m. rw chosen m));
    }

-- When a reconciliation is reported as completed, each of its entries was in no completed
-- reconciliation before, and is in one afterwards.
pub complete-Completes :
    (env : Env) (writer : ReconciliationAuditWriter) (q : ReconciliationRequest) (c : String)
    (w : World) {a : ReconciliationResult}
    → (complete env writer q c w).0 ≡ ok a
    → Completes q.entry_ids w.db (complete env writer q c w).1.db
unfolding complete
complete-Completes env writer q c w h =
    let (id, _, e1) = bind-ok (uuid4 env) _ w h in
    let w1 = (uuid4 env w).1 in
    let body = complete_body env writer id q c in
    let (done, e2) = on_exception-ok (unit_of_work body) _ w1 (ap (λ x. x.0) (sym e1) ∙ h) in
    elim (unit_of_work-ok body w1 done) [
      | inl (ended, e3) ↦
          rw (ap (λ x. x.1.db) e1 ∙ ap (λ x. x.db) (e2 ∙ e3))
            (body-Completes env writer id q c w1 ended)
      | inr (ended, _) ↦
          let (b, out, _) = body-IsExact env writer id q c w1 ended in absurd (ground (arith, out))
    ]
