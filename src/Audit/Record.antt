-- ===== src/Audit/Record.antt =====
-- The rows of backend/app/audit/adapters/repository.py and the events that they hold.
pub mod Encoding
use personal_finance_public.Base.{
  ⊤, String, ℕ, ◌+◌, Bool, true, false, ◌&&◌, ◌||◌, not, Option, none, some, List, [], ◌∷◌, any,
  filter, length, ltb, nat_eq, ◌==◌, ◌=?◌, text_le, sort_by, is_some, if◌then◌else◌, Result, ok,
  err, ◌>>=◌, ◌>>◌, audit_store_error,
}
use personal_finance_public.Base.{zero, suc}
use personal_finance_public.Storage.Json.{JsonValue, Fields, null, bool, int, str, dict, field, end}
use personal_finance_public.Storage.Schema.{Db, AuditEventRecord}
use personal_finance_public.Storage.Schema.Statements.{insert_audit_event}
use personal_finance_public.Storage.World.{Env}
use personal_finance_public.Audit.Event.{
  AuditScalar, text, number, flag, nothing, AuditMetadata, AuditScope, AuditEventDraft, AuditEvent,
  from_draft, action_value, action_of, result_value, result_of,
}

abbrev pub of_scalar : AuditScalar → JsonValue
of_scalar (text s) = str s
of_scalar (number n) = int n
of_scalar (flag b) = bool b
of_scalar nothing = null

abbrev pub to_scalar : JsonValue → Result AuditScalar
to_scalar (str s) = ok (text s)
to_scalar (int n) = ok (number n)
to_scalar (bool b) = ok (flag b)
to_scalar null = ok nothing
to_scalar _ = err audit_store_error

abbrev pub has_item : String → AuditMetadata → Bool
has_item key metadata = any (λ item. key == item.0) metadata

-- `dict(metadata)`: the last of the items with one key is kept. In which order does not matter,
-- because `json.dumps` sorts the keys.
unfoldable pub to_dict : AuditMetadata → AuditMetadata
to_dict [] = []
to_dict (item ∷ rest) =
    let others = to_dict rest in if has_item item.0 rest then others else item ∷ others

abbrev pub by_key : String × AuditScalar → String × AuditScalar → Bool
by_key a b = text_le a.0 b.0

unfoldable pub to_fields : AuditMetadata → Fields
to_fields [] = end
to_fields ((key, value) ∷ rest) = field key (of_scalar value) (to_fields rest)

-- The object that `_encode_metadata` writes, its keys sorted.
abbrev pub to_object : AuditMetadata → JsonValue
to_object metadata = dict (to_fields (sort_by by_key (to_dict metadata)))

-- `_encode_metadata`
unfoldable pub encode_metadata : Env → AuditMetadata → Option String
encode_metadata env [] = none
encode_metadata env (item ∷ rest) = some (env.json_dumps (to_object (item ∷ rest)))

-- The loop over `decoded.items()`.
unfoldable pub of_fields : Fields → Result AuditMetadata
of_fields end = ok []
of_fields (field key value rest) = do
  scalar ← to_scalar value
  others ← of_fields rest
  ok ((key, scalar) ∷ others)

abbrev of_json : Option JsonValue → Result AuditMetadata
of_json none = err audit_store_error
of_json (some (dict fields)) = do metadata ← of_fields fields; ok (sort_by by_key metadata)
of_json (some _) = err audit_store_error

-- `_decode_metadata`; the keys of what `json.loads` returns are distinct.
unfoldable pub decode_metadata : Env → Option String → Result AuditMetadata
decode_metadata env none = ok []
decode_metadata env (some details_json) = of_json (env.json_loads details_json)

unfoldable pub record_of : Env → AuditEvent → AuditEventRecord
record_of env e = record {
  id = e.id;
  space_id = e.space_id;
  occurred_at = e.occurred_at;
  action = action_value e.action;
  outcome = result_value e.result;
  actor_id = e.actor_id;
  entity_type = e.entity_type;
  entity_id = e.entity_id;
  correlation_id = e.correlation_id;
  details_json = encode_metadata env e.metadata;
}

abbrev pub scope_of : Option String → AuditScope
scope_of none = AuditScope.system
scope_of (some space_id) = AuditScope.space

-- `_event`
unfoldable pub event_of : Env → AuditEventRecord → Result AuditEvent
event_of env r = do
  action ← action_of r.action
  result ← result_of r.outcome
  metadata ← decode_metadata env r.details_json
  from_draft r.id (record {
    occurred_at = r.occurred_at;
    action = action;
    result = result;
    scope = scope_of r.space_id;
    space_id = r.space_id;
    actor_id = r.actor_id;
    entity_type = r.entity_type;
    entity_id = r.entity_id;
    correlation_id = r.correlation_id;
    metadata = metadata;
  })

unfoldable pub events_of : Env → List AuditEventRecord → Result (List AuditEvent)
events_of env [] = ok []
events_of env (r ∷ rows) = do
  first ← event_of env r
  others ← events_of env rows
  ok (first ∷ others)
