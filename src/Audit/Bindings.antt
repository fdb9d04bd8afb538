-- ===== src/Audit/Bindings.antt =====
-- backend/app/audit/adapters/bindings.py, and `_ReconciliationAuditBinding` of backend/app/main.py: the
-- bindings of the other components' ports to the durable audit.
pub mod Sinks
pub mod Limits
use personal_finance_public.Base.{
  ⊤, String, Option, none, some, is_some, Bool, true, false, List, [], ◌∷◌, ◌==◌, if◌then◌else◌,
  Result, ok, err, value_error,
}
use personal_finance_public.Storage.Exec.{Exec, pure, lift, raise, guard, ◌>>=◌, ◌>>◌}
use personal_finance_public.Storage.World.{Env, World, utc_now}
use personal_finance_public.Ledger.Audit.{Outcome}
use personal_finance_public.Ledger.Audit
use personal_finance_public.Audit.Event.{
  AuditAction, AuditResult, AuditScope, AuditScalar, login, posting, reversal, reconciliation,
  success, failure, text, AuditEventDraft, AuditEvent, new_event_draft, action_of, result_of,
}
use personal_finance_public.Audit.Redaction.{MetadataValue, scalar, minimize_metadata}
use personal_finance_public.Audit.Service.{append_in_transaction, append_durable}

-- `_LEDGER_ACTIONS`
unfoldable pub ledger_action : String → Option (AuditAction × String)
ledger_action action =
    if action == "create_opening"
    then some (posting, "OPENING")
    else if action == "create_income"
    then some (posting, "INCOME")
    else if action == "create_expense"
    then some (posting, "EXPENSE")
    else if action == "create_transfer"
    then some (posting, "TRANSFER")
    else if action == "post_draft"
    then some (posting, "DRAFT")
    else if action == "reverse_transaction"
    then some (reversal, "REVERSAL")
    else none

-- `AuditResult(outcome)` of the two words that the ledger uses.
abbrev pub result_for : Outcome → AuditResult
result_for Audit.success = success
result_for Audit.failure = failure

abbrev pub scope_for : Option String → AuditScope
scope_for none = AuditScope.system
scope_for (some space_id) = AuditScope.space

abbrev entity_for : String → Option String → Option String
entity_for name none = none
entity_for name (some id) = some name

abbrev pub one_item : String → String → Option (List (String × MetadataValue))
one_item key value = some ((key, scalar (text value)) ∷ [])

module _ (env : Env) where
  -- The draft that `LedgerAuditBinding.record` appends.
  unfoldable pub append_ledger :
      AuditAction × String → Outcome → String → Option String → String → Exec World AuditEvent
  append_ledger (action, operation_kind) outcome space_id transaction_id correlation_id = do
    occurred_at ← utc_now env
    metadata ← lift (minimize_metadata action (one_item "operation_kind" operation_kind))
    draft ← lift (
        new_event_draft (record {
          occurred_at = occurred_at;
          action = action;
          result = result_for outcome;
          scope = AuditScope.space;
          space_id = some space_id;
          actor_id = none;
          entity_type = entity_for "transaction" transaction_id;
          entity_id = transaction_id;
          correlation_id = correlation_id;
          metadata = metadata;
        }))
    append_in_transaction env draft

  unfoldable pub record_known :
      Option (AuditAction × String) → Outcome → String → Option String → String → Exec World ⊤
  record_known none outcome space_id transaction_id correlation_id = raise value_error
  record_known (some known) outcome space_id transaction_id correlation_id = do
    _ ← append_ledger known outcome space_id transaction_id correlation_id
    pure tt

  -- `LedgerAuditBinding.record`
  unfoldable pub record_ledger : String → Outcome → String → Option String → String → Exec World ⊤
  record_ledger action = record_known (ledger_action action)

  -- `OutcomeAuditBinding._draft`
  unfoldable pub outcome_draft :
      AuditAction
      → AuditResult
      → Option String
      → Option String
      → Option String
      → Option String
      → String
      → Option (List (String × MetadataValue))
      → Exec World AuditEventDraft
  outcome_draft action result space_id actor_id entity_type entity_id correlation_id given = do
    occurred_at ← utc_now env
    metadata ← lift (minimize_metadata action given)
    lift (
        new_event_draft (record {
          occurred_at = occurred_at;
          action = action;
          result = result;
          scope = scope_for space_id;
          space_id = space_id;
          actor_id = actor_id;
          entity_type = entity_type;
          entity_id = entity_id;
          correlation_id = correlation_id;
          metadata = metadata;
        }))

  abbrev status_for : Outcome → String
  status_for Audit.success = "COMPLETED"
  status_for Audit.failure = "FAILED"

  -- `_ReconciliationAuditBinding.record`, through `OutcomeAuditBinding.record`; its one caller names
  -- the action that it asks for.
  unfoldable pub record_reconciliation : Outcome → String → Option String → String → Exec World ⊤
  record_reconciliation outcome space_id reconciliation_id correlation_id = do
    draft ←
        outcome_draft reconciliation (result_for outcome) (some space_id) none
          (entity_for "reconciliation" reconciliation_id) reconciliation_id correlation_id
          (one_item "status" (status_for outcome))
    _ ← append_in_transaction env draft
    pure tt

  -- `AuthenticationAuditBinding.record_authentication`
  abbrev login_reason : AuditAction → AuditResult → Result (List (String × AuditScalar))
  login_reason login failure = minimize_metadata login (one_item "reason" "invalid_credentials")
  login_reason _ _ = ok []

  unfoldable pub record_authentication :
      String → String → Option String → Option String → String → Exec World ⊤
  record_authentication action result actor_id space_id correlation_id = do
    audit_action ← lift (action_of action)
    audit_result ← lift (result_of result)
    metadata ← lift (login_reason audit_action audit_result)
    occurred_at ← utc_now env
    draft ← lift (
        new_event_draft (record {
          occurred_at = occurred_at;
          action = audit_action;
          result = audit_result;
          scope = scope_for space_id;
          space_id = space_id;
          actor_id = actor_id;
          entity_type = none;
          entity_id = none;
          correlation_id = correlation_id;
          metadata = metadata;
        }))
    _ ← append_durable env draft
    pure tt
