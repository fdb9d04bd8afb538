-- ===== src/Ledger/Handlers/Posting.antt =====
-- `_post_idempotently`: reserve the key, replay or build and post, record the outcome, commit.
use personal_finance_public.Base.{
  ⊤, String, Bool, true, false, Option, none, some, Result, ok, err, if◌then◌else◌, runtime_error,
}
use personal_finance_public.Domain.Transaction.{
  Transaction, TransactionStatus, draft, posted, reconciled, voided,
}
use personal_finance_public.Storage.Json.{JsonValue, null, str, dict, get}
use personal_finance_public.Storage.Exec.{Exec, pure, lift, ◌>>=◌, ◌>>◌}
use personal_finance_public.Storage.World.{
  Env, World, Exit, committed, returned, unit_of_work, on_exception,
}
use personal_finance_public.Ledger.Commands.{CommandResult, as_json}
use personal_finance_public.Ledger.Audit.{FinancialAuditSink, success, failure}
use personal_finance_public.Ledger.Idempotency.{IdempotencyReservation, reserve, complete}
use personal_finance_public.Ledger.Repository.Transactions.{add_posted, post_existing_draft}

-- `transaction.status.value`
abbrev pub status_value : TransactionStatus → String
status_value draft = "DRAFT"
status_value posted = "POSTED"
status_value reconciled = "RECONCILED"
status_value voided = "VOIDED"

-- A stored replacement identifier: absent, null or a text.
unfoldable pub stored_replacement : Option JsonValue → Result (Option String)
stored_replacement none = ok none
stored_replacement (some null) = ok none
stored_replacement (some (str s)) = ok (some s)
stored_replacement (some other) = err runtime_error

unfoldable pub stored_result :
    Option JsonValue → Option JsonValue → Option JsonValue → Result CommandResult
unfolding stored_replacement
stored_result (some (str transaction_id)) (some (str status)) replacement =
    elim (stored_replacement replacement) [
      | ok replacement_id ↦ ok (record {
        transaction_id = transaction_id;
        status = status;
        replayed = true;
        replacement_transaction_id = replacement_id;
      })
      | err e ↦ err e
    ]
stored_result _ _ _ = err runtime_error

-- The result that a replayed reservation holds.
unfoldable pub decode_result : JsonValue → Result CommandResult
unfolding stored_result
decode_result (dict fields) =
    stored_result (get "transaction_id" fields) (get "status" fields)
      (get "replacement_transaction_id" fields)
decode_result _ = err runtime_error

-- `_replay`
unfoldable pub replay : IdempotencyReservation → Result (Option CommandResult)
replay reservation =
    if reservation.is_replay
    then elim (decode_result reservation.result) [ ok r ↦ ok (some r) | err e ↦ err e ]
    else ok none

-- `CommandResult(transaction.id, transaction.status.value)`
abbrev pub result_of : Transaction → CommandResult
result_of transaction = record {
  transaction_id = transaction.id;
  status = status_value transaction.status;
  replayed = false;
  replacement_transaction_id = none;
}

module _ (env : Env) (sink : FinancialAuditSink) where
  -- `_record_failure`
  unfoldable pub record_failure : String → String → String → Exec World ⊤
  record_failure space_id command_name correlation_id =
      unit_of_work do
        sink.record_outcome command_name failure space_id none correlation_id
        pure (committed tt)

  -- How a transaction is stored: over its draft, or as a new one.
  unfoldable pub store_posted : Bool → Transaction → Exec World ⊤
  store_posted true transaction = post_existing_draft env transaction
  store_posted false transaction = add_posted env transaction

  -- A key that is not replayed.
  unfoldable pub post_new :
      String
      → String
      → String
      → Exec World Transaction
      → Bool
      → IdempotencyReservation
      → Exec World (Exit CommandResult)
  post_new space_id command_name idempotency_key build existing_draft reservation = do
    transaction ← build
    store_posted existing_draft transaction
    let result : CommandResult = result_of transaction
    complete env reservation (as_json result)
    sink.record_outcome command_name success space_id (some transaction.id) idempotency_key
    pure (committed result)

  unfoldable pub replay_or_post :
      String
      → String
      → String
      → Exec World Transaction
      → Bool
      → IdempotencyReservation
      → Option CommandResult
      → Exec World (Exit CommandResult)
  replay_or_post space_id command_name key build existing_draft reservation (some r) =
      pure (returned r)
  replay_or_post space_id command_name key build existing_draft reservation none =
      post_new space_id command_name key build existing_draft reservation

  unfoldable pub post_idempotently :
      String
      → String
      → String
      → JsonValue
      → Exec World Transaction
      → Bool
      → Exec World CommandResult
  post_idempotently space_id command_name idempotency_key payload build existing_draft =
      on_exception
        (unit_of_work do
          reservation ← reserve env space_id command_name idempotency_key payload
          replayed ← lift (replay reservation)
          replay_or_post space_id command_name idempotency_key build existing_draft reservation
              replayed)
        (record_failure space_id command_name idempotency_key)
