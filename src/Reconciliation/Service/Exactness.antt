-- ===== src/Reconciliation/Service/Exactness.antt =====
-- What a completed reconciliation reports, and what one that fails leaves behind.
use personal_finance_public.Base.{
  String, not, ◌≡◌, refl, ap, ◌∙◌, sym, some, List, any, map, filter, arith, ok, inl, inr,
  ineligible_entry,
}
use personal_finance_public.Base.Int.{ℤ, ◌+ℤ◌, sum}
use personal_finance_public.Domain.Transaction.{TransactionStatus}
use personal_finance_public.Storage.Exec.{lift}
use personal_finance_public.Storage.Schema.{Db}
use personal_finance_public.Storage.World.{
  Env, World, Exit, committed, uuid4, utc_now, unit_of_work,
}
use personal_finance_public.Storage.World.Rules.{Keeps, keeps_rules}
use personal_finance_public.Storage.World.Runs.{bind-ok, guard-ok, unit_of_work-ok, on_exception-ok}
use personal_finance_public.Ledger.Audit.{success, AuditOnly, AuditOnly-preorder}
use personal_finance_public.Ledger.Calls.Clean.{
  FailsClean, unit_of_work-clean, on_exception-clean, bind-clean, Unchanged-preorder,
}
use personal_finance_public.Reconciliation.{
  ReconciliationCandidate, Reconciliation, completed, mem, new_selection, draft_reconciliation,
  selected_effect_cents, complete_reconciliation,
}
use personal_finance_public.Reconciliation.Balance.{
  IsValid, new_reconciliation-IsValid, complete_reconciliation-exact,
}
use personal_finance_public.Reconciliation.Repository
use personal_finance_public.Reconciliation.Repository.{
  prior_completed_cents, add_completed, candidates_of, completed_effects,
}
use personal_finance_public.Reconciliation.Repository.Reads.{
  list_candidates-Unchanged, list_candidates-ok, prior_completed_cents-ok,
}
use personal_finance_public.Reconciliation.Service.{
  ReconciliationAuditWriter, ReconciliationRequest, ReconciliationResult, result_of, draft_of,
  project_affected_transactions, record_failure, complete_body, complete,
}

record_failure-AuditOnly :
    (env : Env) (writer : ReconciliationAuditWriter) (s c : String)
    → Keeps AuditOnly (record_failure env writer s c)
unfolding record_failure
record_failure-AuditOnly env writer s c =
    search (keeps_rules, AuditOnly-preorder, writer.audit_only) depth 8

-- A reconciliation that fails leaves the database as it was, but that audit events may have been
-- added: those that were there stay.
pub complete-FailsClean :
    (env : Env) (writer : ReconciliationAuditWriter) (q : ReconciliationRequest) (c : String)
    → FailsClean (complete env writer q c)
unfolding complete
complete-FailsClean env writer q c =
    search
      (
        unit_of_work-clean, on_exception-clean, bind-clean, keeps_rules, Unchanged-preorder,
        record_failure-AuditOnly,
      )
      depth 8

-- The effects of the entries that are in completed reconciliations, and of the open candidates that
-- a request selects, as a database has them.
abbrev pub prior_effect : ReconciliationRequest → Db → ℤ
prior_effect q db =
    sum (completed_effects q.space_id q.account_id q.cutoff_date db db.reconciliation_entries)

abbrev pub requested_effect : ReconciliationRequest → Db → ℤ
requested_effect q db = sum (
    map (λ c. c.signed_effect_cents)
      (filter (λ c. mem c.entry_id q.entry_ids)
        (candidates_of q.space_id q.account_id q.cutoff_date db)))

-- A draft for a request, over a database.
pub record IsDraftOf (id : String) (q : ReconciliationRequest) (db : Db) (r : Reconciliation)
    : Type 0 where
  pub valid : IsValid r
  pub its_id : r.id ≡ id
  pub its_space : r.space_id ≡ q.space_id
  pub its_observed : r.observed_balance_cents ≡ q.observed_balance_cents
  pub its_selection : r.selection ≡ q.entry_ids
  pub its_prior : r.prior_completed_cents ≡ prior_effect q db
  pub its_candidates : r.candidates ≡ candidates_of q.space_id q.account_id q.cutoff_date db

selection-ok : (ids : List String) {made : List String} → new_selection ids ≡ ok made → made ≡ ids
unfolding new_selection
selection-ok ids h = ground arith

pub draft_of-IsDraftOf :
    (id : String) (q : ReconciliationRequest) (w : World) {r : Reconciliation}
    → (draft_of id q w).0 ≡ ok r
    → IsDraftOf id q w.db r
unfolding draft_of draft_reconciliation
draft_of-IsDraftOf id q w {r} h =
    let list = Repository.list_candidates q.space_id q.account_id q.cutoff_date in
    let (candidates, listed, e1) = bind-ok list _ w h in
    let w1 = (list w).1 in
    let (_, e2) =
      guard-ok (any (λ i. not (mem i (map (λ c. c.entry_id) candidates))) q.entry_ids)
        ineligible_entry _ w1 (ap (λ x. x.0) (sym e1) ∙ h) in
    let h2 = ap (λ x. x.0) (sym e2 ∙ sym e1) ∙ h in
    let total = prior_completed_cents q.space_id q.account_id q.cutoff_date in
    let (prior, summed, e3) = bind-ok total _ w1 h2 in
    let w2 = (total w1).1 in
    let h3 = ap (λ x. x.0) (sym e3) ∙ h2 in
    let (selection, chosen, e4) = bind-ok (lift (new_selection q.entry_ids)) _ w2 h3 in
    let (valid, same) = new_reconciliation-IsValid _ (ap (λ x. x.0) (sym e4) ∙ h3) in
    let still = (list_candidates-Unchanged q.space_id q.account_id q.cutoff_date).at w in
    record {
      valid = rw same valid;
      its_id = ap (λ x. x.id) same;
      its_space = ap (λ x. x.space_id) same;
      its_observed = ap (λ x. x.observed_balance_cents) same;
      its_selection = ap (λ x. x.selection) same ∙ selection-ok q.entry_ids chosen;
      its_prior =
          ap (λ x. x.prior_completed_cents) same
          ∙ prior_completed_cents-ok q.space_id q.account_id q.cutoff_date w1 summed
          ∙ ap (prior_effect q) still.same;
      its_candidates =
          ap (λ x. x.candidates) same
          ∙ list_candidates-ok q.space_id q.account_id q.cutoff_date w listed;
    }

-- What a completed reconciliation reports for a request, over the database it started from.
pub record IsExact (q : ReconciliationRequest) (db : Db) (a : ReconciliationResult) : Type 0 where
  pub is_completed : a.status ≡ completed
  pub observed : a.observed_balance_cents ≡ q.observed_balance_cents
  pub selected : a.selected_entry_ids ≡ q.entry_ids
  pub prior : a.prior_completed_cents ≡ prior_effect q db
  pub effect : a.selected_effect_cents ≡ requested_effect q db
  pub balances : q.observed_balance_cents ≡ prior_effect q db +ℤ requested_effect q db

effect_of :
    (r : Reconciliation) (ids : List String) (listed : List ReconciliationCandidate)
    → r.selection ≡ ids
    → r.candidates ≡ listed
    → selected_effect_cents r
      ≡ sum (map (λ c. c.signed_effect_cents) (filter (λ c. mem c.entry_id ids) listed))
unfolding selected_effect_cents
effect_of r ids listed chosen same = rw (sym chosen, sym same) refl

completed-IsExact :
    (id : String) (q : ReconciliationRequest) (db : Db) (d r : Reconciliation)
    (states : List (String × TransactionStatus))
    → IsDraftOf id q db d
    → complete_reconciliation d ≡ ok r
    → IsExact q db (result_of r states)
unfolding result_of selected_effect_cents
completed-IsExact id q db d r states drafted done =
    elim (complete_reconciliation-exact d drafted.valid) [
      | inl (made, balanced) ↦
          let same : r ≡ record d { status = completed } = cc (made, done) in
          let effect = effect_of d q.entry_ids _ drafted.its_selection drafted.its_candidates in
          rw same (record {
            is_completed = refl;
            observed = drafted.its_observed;
            selected = drafted.its_selection;
            prior = drafted.its_prior;
            effect = effect;
            balances =
                sym drafted.its_observed
                ∙ balanced
                ∙ ap (λ p. p +ℤ selected_effect_cents d) drafted.its_prior
                ∙ ap (λ e. prior_effect q db +ℤ e) effect;
          })
      | inr (refused, _) ↦ absurd (cc (refused, done))
    ]

pub body-IsExact :
    (env : Env) (writer : ReconciliationAuditWriter) (id : String) (q : ReconciliationRequest)
    (c : String) (w : World) {out : Exit ReconciliationResult}
    → (complete_body env writer id q c w).0 ≡ ok out
    → (a : ReconciliationResult) × (out ≡ committed a) × IsExact q w.db a
unfolding complete_body
body-IsExact env writer id q c w h =
    let (d, drafted, e1) = bind-ok (draft_of id q) _ w h in
    let w1 = (draft_of id q w).1 in
    let h1 = ap (λ x. x.0) (sym e1) ∙ h in
    let (r, done, e2) = bind-ok (lift (complete_reconciliation d)) _ w1 h1 in
    let h2 = ap (λ x. x.0) (sym e2) ∙ h1 in
    let (at, _, e3) = bind-ok (utc_now env) _ w1 h2 in
    let w2 = (utc_now env w1).1 in
    let h3 = ap (λ x. x.0) (sym e3) ∙ h2 in
    let (_, _, e4) = bind-ok (add_completed r at) _ w2 h3 in
    let w3 = (add_completed r at w2).1 in
    let h4 = ap (λ x. x.0) (sym e4) ∙ h3 in
    let (states, _, e5) = bind-ok (project_affected_transactions r.space_id r.selection) _ w3 h4 in
    let w4 = (project_affected_transactions r.space_id r.selection w3).1 in
    let h5 = ap (λ x. x.0) (sym e5) ∙ h4 in
    let (_, _, e6) = bind-ok (writer.record_outcome success q.space_id (some r.id) c) _ w4 h5 in
    let h6 = ap (λ x. x.0) (sym e6) ∙ h5 in
    (
      result_of r states,
      ground (arith, h6),
      completed-IsExact id q w.db d r states (draft_of-IsDraftOf id q w drafted) done,
    )

-- A reconciliation that is reported as completed selects the entries that were asked for; the
-- balances it reports are the sum, over the database it started from, of the effects of the entries
-- already in completed reconciliations of the account up to the cutoff date, and of the selected open
-- candidates; and the observed balance that was asked for is exactly the two together.
pub complete-IsExact :
    (env : Env) (writer : ReconciliationAuditWriter) (q : ReconciliationRequest) (c : String)
    (w : World) {a : ReconciliationResult}
    → (complete env writer q c w).0 ≡ ok a
    → IsExact q w.db a
unfolding complete
complete-IsExact env writer q c w {a} h =
    let (id, _, e1) = bind-ok (uuid4 env) _ w h in
    let w1 = (uuid4 env w).1 in
    let body = complete_body env writer id q c in
    let (done, _) = on_exception-ok (unit_of_work body) _ w1 (ap (λ x. x.0) (sym e1) ∙ h) in
    elim (unit_of_work-ok body w1 done) [
      | inl (ended, _) ↦
          let (b, out, exact) = body-IsExact env writer id q c w1 ended in
          rw (let e : a ≡ b = ground (arith, out) in e) exact
      | inr (ended, _) ↦
          let (b, out, exact) = body-IsExact env writer id q c w1 ended in
          absurd (ground (arith, out))
    ]
