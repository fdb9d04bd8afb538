-- ===== src/Ledger/Idempotency.antt =====
-- backend/app/shared/idempotency.py: command keys reserved and completed in the caller's session.
pub mod Replay
use personal_finance_public.Base.{
  ⊤, String, Bool, true, false, ◌&&◌, ◌||◌, not, Option, none, some, find?, ◌==◌, Result, ok, err,
  if◌then◌else◌, value_error, runtime_error, idempotency_conflict, idempotency_in_progress,
}
use personal_finance_public.Base.Text
use personal_finance_public.Storage.Json.{JsonValue, null}
use personal_finance_public.Storage.CanonicalJson.{canonical_json}
use personal_finance_public.Storage.Table.{lookup}
use personal_finance_public.Storage.Exec.{Exec, pure, raise, lift, guard, or_raise, ◌>>=◌, ◌>>◌}
use personal_finance_public.Storage.Schema.{Db, IdempotencyRecord, idempotency_keyed}
use personal_finance_public.Storage.Schema.Statements.{
  has_key, insert_idempotency_record, update_idempotency_record,
}
use personal_finance_public.Storage.World.{Env, World, uuid4, utc_now, query, execute}

pub record IdempotencyReservation : Type 0 where
  pub record_id : String
  pub is_replay : Bool
  pub result : JsonValue

unfoldable pub canonical_payload_hash : Env → JsonValue → String
canonical_payload_hash env payload = env.sha256_hexdigest (canonical_json payload)

-- `IdempotencyStore._find`
unfoldable pub find : String → String → Db → Option IdempotencyRecord
find space_id idempotency_key db = find? (has_key space_id idempotency_key) db.idempotency_records

-- `IdempotencyStore._resolve`
unfoldable pub resolve : IdempotencyRecord → String → String → Result IdempotencyReservation
resolve r command_name payload_hash =
    if not (r.command_name == command_name) || not (r.payload_hash == payload_hash)
    then err idempotency_conflict
    else elim r.result_json [
      | none ↦ err idempotency_in_progress
      | some result ↦ ok (record { record_id = r.id; is_replay = true; result = result })
    ]

unfoldable pub new_record : String → String → String → String → String → IdempotencyRecord
new_record id space_id command_name idempotency_key payload_hash = record {
  id = id;
  space_id = space_id;
  command_name = command_name;
  idempotency_key = idempotency_key;
  payload_hash = payload_hash;
  result_json = none;
  completed_at = none;
}

module _ (env : Env) where
  -- The record of a new key, flushed.
  unfoldable pub reserve_new : String → String → String → String → Exec World IdempotencyReservation
  reserve_new space_id command_name idempotency_key payload_hash = do
    id ← uuid4 env
    execute (
        insert_idempotency_record
          (new_record id space_id command_name idempotency_key payload_hash))
    pure (record { record_id = id; is_replay = false; result = null })

  unfoldable pub reserve_found :
      Option IdempotencyRecord
      → String
      → String
      → String
      → String
      → Exec World IdempotencyReservation
  reserve_found none space_id command_name idempotency_key payload_hash =
      reserve_new space_id command_name idempotency_key payload_hash
  reserve_found (some existing) space_id command_name idempotency_key payload_hash =
      lift (resolve existing command_name payload_hash)

  unfoldable pub reserve : String → String → String → JsonValue → Exec World IdempotencyReservation
  reserve space_id command_name idempotency_key payload = do
    guard (Text.is_empty command_name || Text.is_empty idempotency_key) value_error
    existing ← query (find space_id idempotency_key)
    reserve_found existing space_id command_name idempotency_key
        (canonical_payload_hash env payload)

  unfoldable pub complete : IdempotencyReservation → JsonValue → Exec World ⊤
  complete reservation result = do
    guard reservation.is_replay value_error
    found ← query (λ db. lookup reservation.record_id db.idempotency_records)
    r ← or_raise found runtime_error
    completed_at ← utc_now env
    execute (
        update_idempotency_record
          (record r { result_json = some result; completed_at = some completed_at }))
