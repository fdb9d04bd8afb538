-- ===== src/Audit/Bindings/Sinks.antt =====
-- The ledger's port filled by its binding, and what the binding writes.
use personal_finance_public.Base.{
  String, ◌≡◌, sym, ap, ◌∙◌, Option, none, some, ◌∷◌, arith, ok, >>=-eq-ok,
}
use personal_finance_public.Storage.Exec.{lift}
use personal_finance_public.Storage.Schema.{Db, AuditEventRecord}
use personal_finance_public.Storage.Schema.Statements.{insert_audit_event}
use personal_finance_public.Storage.World.{Env, World, utc_now, uuid4, execute}
use personal_finance_public.Storage.World.Rules.{Keeps, keeps_rules}
use personal_finance_public.Ledger.Audit.{
  Outcome, AuditOnly, AuditOnly-preorder, insert_audit_event-AuditOnly, FinancialAuditSink,
}
use personal_finance_public.Storage.World.Runs.{bind-ok, execute-ok}
use personal_finance_public.Identity.Credentials.{AuthenticationAuditSink}
use personal_finance_public.Reconciliation.Service.{ReconciliationAuditWriter}
use personal_finance_public.Audit.Event.{
  AuditAction, AuditEventDraft, AuditEvent, new_event_draft, required_identifier, from_draft,
}
use personal_finance_public.Audit.Event.Validity.{IsValid, new_event_draft-IsValid}
use personal_finance_public.Audit.Redaction.{minimize_metadata}
use personal_finance_public.Audit.Record.{record_of}
use personal_finance_public.Audit.Repository.{append}
use personal_finance_public.Audit.Service.{append_in_transaction, append_durable}
use personal_finance_public.Audit.Bindings.{
  ledger_action, one_item, append_ledger, record_known, record_ledger, outcome_draft,
  record_reconciliation, record_authentication,
}

module _ (env : Env) where
  append_in_transaction-AuditOnly :
      (d : AuditEventDraft) → Keeps AuditOnly (append_in_transaction env d)
  unfolding append_in_transaction append
  append_in_transaction-AuditOnly d =
      search (keeps_rules, AuditOnly-preorder, insert_audit_event-AuditOnly) depth 12

  ruleset audit_rules = (keeps_rules, AuditOnly-preorder, append_in_transaction-AuditOnly)

  pub record_known-AuditOnly :
      (known : Option (AuditAction × String)) (o : Outcome) (s : String) (t : Option String)
      (c : String)
      → Keeps AuditOnly (record_known env known o s t c)
  unfolding record_known append_ledger
  record_known-AuditOnly none o s t c = search audit_rules
  record_known-AuditOnly (some k) o s t c = search audit_rules depth 16

  pub record_reconciliation-AuditOnly :
      (o : Outcome) (s : String) (r : Option String) (c : String)
      → Keeps AuditOnly (record_reconciliation env o s r c)
  unfolding record_reconciliation outcome_draft
  record_reconciliation-AuditOnly o s r c = search audit_rules depth 16

  pub append_durable-AuditOnly : (d : AuditEventDraft) → Keeps AuditOnly (append_durable env d)
  unfolding append_durable
  append_durable-AuditOnly d = search audit_rules depth 8

  pub record_authentication-AuditOnly :
      (a r : String) (u s : Option String) (c : String)
      → Keeps AuditOnly (record_authentication env a r u s c)
  unfolding record_authentication
  record_authentication-AuditOnly a r u s c =
      search (audit_rules, append_durable-AuditOnly) depth 20

  -- The sink that backend/app/main.py composes the ledger's services with.
  unfoldable pub ledger_sink : FinancialAuditSink
  unfolding record_ledger
  ledger_sink = record {
    record_outcome = record_ledger env;
    audit_only = λ a o s t c. record_known-AuditOnly (ledger_action a) o s t c;
  }

  -- The sink that backend/app/main.py composes the identity service with.
  unfoldable pub authentication_sink : AuthenticationAuditSink
  authentication_sink = record {
    record_authentication = record_authentication env;
    audit_only = record_authentication-AuditOnly;
  }

  -- The writer that backend/app/main.py composes the reconciliation service with.
  unfoldable pub reconciliation_writer : ReconciliationAuditWriter
  reconciliation_writer = record {
    record_outcome = record_reconciliation env;
    audit_only = record_reconciliation-AuditOnly;
  }

insert_event-rows :
    (r : AuditEventRecord) (db db' : Db)
    → insert_audit_event r db ≡ ok db'
    → db'.audit_events ≡ r ∷ db.audit_events
unfolding insert_audit_event
insert_event-rows r db db' h = ground arith

-- An event that was appended is the newest row of its table.
pub append_in_transaction-rows :
    (env : Env) (d : AuditEventDraft) (w : World) {e : AuditEvent}
    → (append_in_transaction env d w).0 ≡ ok e
    → (from_draft (env.uuid4_hex w.calls) d ≡ ok e)
      × ((append_in_transaction env d w).1.db.audit_events ≡ record_of env e ∷ w.db.audit_events)
unfolding append_in_transaction append
append_in_transaction-rows env d w {e} h =
    let (id, p1, e1) = bind-ok (uuid4 env) _ w h in
    let w1 = (uuid4 env w).1 in
    let (event, p2, e2) = bind-ok (lift (from_draft id d)) _ w1 (ap (λ r. r.0) (sym e1) ∙ h) in
    let (_, p3, e3) =
      bind-ok (execute (insert_audit_event (record_of env event))) _ w1
        (ap (λ r. r.0) (sym (e1 ∙ e2)) ∙ h) in
    let (db', accepted, moved) = execute-ok (insert_audit_event (record_of env event)) w1 p3 in
    let whole = e1 ∙ e2 ∙ e3 in
    let same = ap (λ r. r.0) whole in
    let rows = ap (λ r. r.1.db.audit_events) whole ∙ ap (λ v. v.db.audit_events) moved in
    let added = insert_event-rows (record_of env event) w1.db db' accepted in
    (cc (p1, p2, h, same), cc (h, same, rows, added))

from_draft-IsValid :
    (id : String) (d : AuditEventDraft) {e : AuditEvent}
    → from_draft id d ≡ ok e
    → IsValid d × (e.draft ≡ d)
unfolding from_draft
from_draft-IsValid id d h =
    let (_, _, h1) = >>=-eq-ok (required_identifier id) _ h in
    let (made, m, h2) = >>=-eq-ok (new_event_draft d) _ h1 in
    let (valid, same) = new_event_draft-IsValid d m in (valid, cc (same, h2))

-- The row that a financial outcome leaves: a valid event about it.
pub record IsAbout (space_id : String) (transaction_id : Option String) (correlation_id : String)
    (e : AuditEvent) : Type 0 where
  pub valid : IsValid e.draft
  pub about_space : e.space_id ≡ some space_id
  pub about_transaction : e.entity_id ≡ transaction_id
  pub correlated : e.correlation_id ≡ correlation_id

append_ledger-rows :
    (env : Env) (k : AuditAction × String) (o : Outcome) (s : String) (t : Option String)
    (c : String) (w : World) {e : AuditEvent}
    → (append_ledger env k o s t c w).0 ≡ ok e
    → IsAbout s t c e
      × ((append_ledger env k o s t c w).1.db.audit_events ≡ record_of env e ∷ w.db.audit_events)
unfolding append_ledger
append_ledger-rows env (action, kind) o s t c w {e} h =
    let (_, _, e1) = bind-ok (utc_now env) _ w h in
    let w1 = (utc_now env w).1 in
    let (_, _, e2) =
      bind-ok (lift (minimize_metadata action (one_item "operation_kind" kind))) _ w1
        (ap (λ r. r.0) (sym e1) ∙ h) in
    let (d, made, e3) =
      bind-ok (lift (new_event_draft _)) _ w1 (ap (λ r. r.0) (sym (e1 ∙ e2)) ∙ h) in
    let whole = e1 ∙ e2 ∙ e3 in
    let (from, rows) = append_in_transaction-rows env d w1 (ap (λ r. r.0) (sym whole) ∙ h) in
    let (_, is_draft) = new_event_draft-IsValid _ made in
    let (valid, same) = from_draft-IsValid _ d from in
    let drafts = same ∙ is_draft in
    (
      record {
        valid = rw same valid;
        about_space = ap (λ x. x.space_id) drafts;
        about_transaction = ap (λ x. x.entity_id) drafts;
        correlated = ap (λ x. x.correlation_id) drafts;
      },
      ap (λ r. r.1.db.audit_events) whole ∙ rows,
    )

record_known-rows :
    (env : Env) (known : Option (AuditAction × String)) (o : Outcome) (s : String)
    (t : Option String) (c : String) (w : World)
    → (record_known env known o s t c w).0 ≡ ok tt
    → (e : AuditEvent) × IsAbout s t c e
      × ((record_known env known o s t c w).1.db.audit_events ≡ record_of env e ∷ w.db.audit_events)
unfolding record_known
record_known-rows env none o s t c w h = absurd (ground (arith, h))
record_known-rows env (some k) o s t c w h =
    let (e, made, e1) = bind-ok (append_ledger env k o s t c) _ w h in
    let (about, rows) = append_ledger-rows env k o s t c w made in
    (e, about, ap (λ r. r.1.db.audit_events) e1 ∙ rows)

-- When the ledger's outcome is recorded, exactly one event is written, it is the newest, it is valid
-- and it is about the space, the transaction and the correlation identifier that were given.
pub record_ledger-rows :
    (env : Env) (a : String) (o : Outcome) (s : String) (t : Option String) (c : String) (w : World)
    → (record_ledger env a o s t c w).0 ≡ ok tt
    → (e : AuditEvent) × IsAbout s t c e
      × ((record_ledger env a o s t c w).1.db.audit_events ≡ record_of env e ∷ w.db.audit_events)
unfolding record_ledger
record_ledger-rows env a o s t c w h = record_known-rows env (ledger_action a) o s t c w h
