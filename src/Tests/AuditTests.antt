-- ===== src/Tests/AuditTests.antt =====
-- The audit component's properties at concrete events.
use personal_finance_public.Audit.Bindings.{
  record_known, ledger_action, append_ledger, one_item, record_ledger,
}
use personal_finance_public.Audit.Service.{append_in_transaction}
use personal_finance_public.Audit.Event.{
  from_draft, optional_identifier, required_identifier, is_sorted, AuditAction, AuditResult,
  AuditScope, AuditEventDraft, AuditEvent, text, is_identifier, new_event_draft, action_value,
  action_of, result_value, result_of,
}
use personal_finance_public.Audit.Record.{
  to_dict, to_object, to_fields, encode_metadata, record_of, event_of,
}
use personal_finance_public.Audit.Redaction.{
  value_equals, is_secret_value, after_word, search_in, minimized, minimize_metadata, allowed_keys,
  is_forbidden_key,
}
use personal_finance_public.Storage.CanonicalJson.{
  digit, decimal, canonical_json, dumps, sort_keys, insert_field, quoted,
}
use personal_finance_public.Storage.Table.{lookup}
use personal_finance_public.Base.{
  String, ◌<◌, arith, ◌≡◌, refl, false, none, some, [], ◌∷◌, ok, All, any, ◌==◌, text_le,
}
use personal_finance_public.Storage.Exec.{◌>>=◌}
use personal_finance_public.Storage.World.{execute}
use personal_finance_public.Storage.Schema.Statements.{insert_audit_event}
use personal_finance_public.Ledger.Audit.{Outcome}
use personal_finance_public.Audit.Event.Validity.{
  IsValid, new_event_draft-IsValid, action_of-action_value,
}
use personal_finance_public.Audit.Redaction.Safety.{
  IsSafe, minimize_metadata-IsSafe, allowed_keys_not_forbidden,
}
use personal_finance_public.Audit.Record.Encoding.{event_of-record_of}
use personal_finance_public.Audit.Bindings.Sinks.{ledger_sink, IsAbout, record_ledger-rows}
use personal_finance_public.Storage.Json.{JsonValue}
use personal_finance_public.Ledger.Idempotency.{find}
use personal_finance_public.Ledger.Handlers.Posting.{post_idempotently}
use personal_finance_public.Ledger.Handlers.Movements.{build_transfer}
use personal_finance_public.Ledger.Replay.Conflict.{IsRefused}
use personal_finance_public.Audit.Bindings.Limits.{post_idempotently-long_key}
use personal_finance_public.Tests.Sample.{env, start, to_savings}
use personal_finance_public.Audit.Repository
use personal_finance_public.Base.Text

abbrev posted_draft : AuditEventDraft
posted_draft = record {
  occurred_at = 1;
  action = AuditAction.posting;
  result = AuditResult.success;
  scope = AuditScope.space;
  space_id = some "home";
  actor_id = none;
  entity_type = some "transaction";
  entity_id = some "id1";
  correlation_id = "key-1";
  metadata = ("operation_kind", text "TRANSFER") ∷ [];
}

draft_made : new_event_draft posted_draft ≡ ok posted_draft
unfolding new_event_draft ◌==◌ Text.strip Text.rstrip Text.lstrip Text.is_space is_sorted
draft_made = refl

new_event_draft-IsValid_example : IsValid posted_draft × (posted_draft ≡ posted_draft)
new_event_draft-IsValid_example = new_event_draft-IsValid posted_draft draft_made

action_of-action_value_example :
    (action_of (action_value AuditAction.posting) ≡ ok AuditAction.posting)
    × (result_of (result_value AuditResult.failure) ≡ ok AuditResult.failure)
action_of-action_value_example = action_of-action_value AuditAction.posting AuditResult.failure

kind_minimized :
    minimize_metadata AuditAction.posting (one_item "operation_kind" "TRANSFER")
    ≡ ok (("operation_kind", text "TRANSFER") ∷ [])
unfolding minimize_metadata minimized is_forbidden_key search_in after_word allowed_keys ◌==◌
    is_secret_value
kind_minimized = refl

minimize_metadata-IsSafe_example :
    All (IsSafe AuditAction.posting) (("operation_kind", text "TRANSFER") ∷ [])
minimize_metadata-IsSafe_example =
    minimize_metadata-IsSafe AuditAction.posting (one_item "operation_kind" "TRANSFER")
      kind_minimized

allowed_keys_not_forbidden_example : any is_forbidden_key (allowed_keys AuditAction.login) ≡ false
allowed_keys_not_forbidden_example = allowed_keys_not_forbidden AuditAction.login

abbrev posted_event : AuditEvent
posted_event = record { id = "id1"; draft = posted_draft }

event_made : from_draft "id1" posted_draft ≡ ok posted_event
unfolding from_draft new_event_draft ◌==◌ Text.strip Text.rstrip Text.lstrip Text.is_space is_sorted
    required_identifier optional_identifier is_identifier
event_made = refl

json_read :
    env.json_loads (env.json_dumps (to_object posted_draft.metadata))
    ≡ some (to_object posted_draft.metadata)
unfolding canonical_json dumps sort_keys insert_field quoted Text.append to_fields to_dict ◌==◌
json_read = refl

event_of-record_of_example : event_of env (record_of env posted_event) ≡ ok posted_event
event_of-record_of_example = event_of-record_of env "id1" posted_draft event_made refl json_read

outcome_recorded :
    (record_ledger env "create_transfer" Outcome.success "home" (some "id1") "key-1" start).0
    ≡ ok tt
unfolding record_ledger is_identifier ◌==◌ Text.strip Text.rstrip Text.lstrip Text.is_space
    record_known ledger_action ◌>>=◌ append_ledger minimize_metadata minimized is_forbidden_key
    search_in after_word allowed_keys is_secret_value new_event_draft is_sorted
    append_in_transaction from_draft Text.append decimal optional_identifier required_identifier
    encode_metadata record_of to_fields value_equals Repository.append text_le digit
    insert_audit_event lookup execute
outcome_recorded = refl

record_ledger-rows_example :
    (e : AuditEvent) × IsAbout "home" (some "id1") "key-1" e
    × ((record_ledger env "create_transfer" Outcome.success "home"
          (some "id1")
          "key-1"
          start).1.db.audit_events
        ≡ record_of env e ∷ start.db.audit_events)
record_ledger-rows_example =
    record_ledger-rows env "create_transfer" Outcome.success "home" (some "id1") "key-1" start
      outcome_recorded

abbrev long_key : String
long_key =
    "kkkkkkkkkkkkkkkkkkkkkkkkkkkkkkkkkkkkkkkkkkkkkkkkkkkkkkkkkkkkkkkkkkkkkkkkkkkkkkkkkkkkkkkkkkkkkkkkkkkkkkkkkkkkkkkkkkkkkkkkk"

long_key_absent : find "home" long_key start.db ≡ none
unfolding find
long_key_absent = refl

long_key_long : 120 < Text.length long_key
long_key_long = omega arith

post_idempotently-long_key_example : IsRefused start.db (
    post_idempotently env
      (ledger_sink env)
      "home"
      "create_transfer"
      long_key
      JsonValue.null
      (build_transfer env to_savings)
      false
      start)
post_idempotently-long_key_example =
    post_idempotently-long_key env "home" "create_transfer" long_key (build_transfer env to_savings)
      false JsonValue.null start long_key_absent long_key_long
