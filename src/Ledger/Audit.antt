-- ===== src/Ledger/Audit.antt =====
-- backend/app/ledger/ports/audit.py: the port through which the ledger reports outcomes.
use personal_finance_public.Base.{
  ⊤, String, ◌≡◌, refl, sym, ap, ◌∙◌, Option, List, [], ◌∷◌, ◌++◌, append_assoc, arith,
}
use personal_finance_public.Storage.Exec.{Exec}
use personal_finance_public.Storage.Schema.{Db, AuditEventRecord}
use personal_finance_public.Storage.Schema.Statements.{insert_audit_event}
use personal_finance_public.Storage.Schema.Soundness.{Grows, Grows-same}
use personal_finance_public.Storage.World.{World}
use personal_finance_public.Storage.World.Rules.{Preorder, Accepts, Keeps}

pub data Outcome : Type 0 where
  success failure : Outcome

-- Nothing but audit events has been added: every event that was there is still there, older than
-- those that are new, and every other table is as it was.
pub record AuditOnly (db db' : Db) : Type 0 where
  pub only_audit : db' ≡ record db { audit_events = db'.audit_events }
  pub new_events : List AuditEventRecord
  pub appended : db'.audit_events ≡ new_events ++ db.audit_events

pub AuditOnly-preorder : Preorder AuditOnly
AuditOnly-preorder = record {
  reflexive = λ a. record { only_audit = refl; new_events = []; appended = refl };
  transitive = λ a b c p q. record {
    only_audit = ground (arith, p.only_audit, q.only_audit);
    new_events = q.new_events ++ p.new_events;
    appended =
        q.appended
        ∙ ap (λ rows. q.new_events ++ rows) p.appended
        ∙ sym (append_assoc q.new_events p.new_events a.audit_events);
  };
}

pub AuditOnly-Grows : (db db' : Db) → AuditOnly db db' → Grows db db'
AuditOnly-Grows db db' a =
    Grows-same db db' (ap (λ d. d.transactions) a.only_audit) (ap (λ d. d.entries) a.only_audit)

pub Keeps-AuditOnly-Grows : {A : Type 0} (m : Exec World A) → Keeps AuditOnly m → Keeps Grows m
Keeps-AuditOnly-Grows m k = record { at = λ w. AuditOnly-Grows w.db (m w).1.db (k.at w) }

pub insert_audit_event-AuditOnly : (r : AuditEventRecord) → Accepts AuditOnly (insert_audit_event r)
unfolding insert_audit_event
insert_audit_event-AuditOnly r = record {
  accepts = λ db db' h. record {
    only_audit = ground arith;
    new_events = r ∷ [];
    appended = ground arith;
  };
}

-- `FinancialAuditSink`: what the ledger's services are given. A sink may refuse an event, and
-- writes nothing but audit events.
pub record FinancialAuditSink : Type 0 where
  pub record_outcome : String → Outcome → String → Option String → String → Exec World ⊤
  pub audit_only :
      (action : String) (outcome : Outcome) (space_id : String) (transaction_id : Option String)
      (correlation_id : String)
      → Keeps AuditOnly (record_outcome action outcome space_id transaction_id correlation_id)
