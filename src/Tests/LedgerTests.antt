-- ===== src/Tests/LedgerTests.antt =====
-- The ledger's properties at concrete runs.
use personal_finance_public.Base.{
  false, ◌≡◌, refl, ◌==◌, true, none, List, [], ◌∷◌, ok, err, invalid_amount, Result,
}
use personal_finance_public.Base.Int.{pos, sum, ◌+ℤ◌, neg}
use personal_finance_public.Base.Text
use personal_finance_public.Domain.Money
use personal_finance_public.Domain.Account.{new_account, validated_name}
use personal_finance_public.Domain.Description.{normalize_required_description}
use personal_finance_public.Domain.Entry
use personal_finance_public.Domain.Entry.{EntrySide, for_account}
use personal_finance_public.Domain.Recipes.{transfer_entries}
use personal_finance_public.Domain.Transaction.{validate_posting, new_posted}
use personal_finance_public.Storage.CanonicalJson.{decimal}
use personal_finance_public.Storage.Table.{lookup, update}
use personal_finance_public.Storage.Exec.{◌>>=◌}
use personal_finance_public.Storage.Schema.{transaction_keyed}
use personal_finance_public.Storage.Schema.Triggers.{entries_of, posting_guard, posted_entry_guard}
use personal_finance_public.Storage.Schema.Soundness.{IsSound, Kept}
use personal_finance_public.Storage.Schema.Statements.{
  insert_transaction, set_state, guarded_update, insert_entry, insert_audit_event,
  insert_idempotency_record, update_idempotency_record, has_account,
}
use personal_finance_public.Storage.World.{World, execute, unit_of_work, on_exception}
use personal_finance_public.Ledger.Commands.{ReverseCommand, CommandResult, as_json}
use personal_finance_public.Ledger.Audit.{AuditOnly}
use personal_finance_public.Ledger.Idempotency.{
  canonical_payload_hash, find, reserve, reserve_found, reserve_new, new_record, complete,
}
use personal_finance_public.Ledger.Repository.Catalog.{get_account, account_row}
use personal_finance_public.Ledger.Repository.Transactions.{
  add_posted, add_entries, transaction_record,
}
use personal_finance_public.Ledger.Handlers.Support.{active_account, transfer_payload}
use personal_finance_public.Ledger.Handlers.Posting.{
  replay, record_failure, store_posted, post_new, replay_or_post, post_idempotently,
}
use personal_finance_public.Ledger.Handlers.Movements
use personal_finance_public.Ledger.Calls.{Call, create_transfer, reverse, effect_of, run, run_all}
use personal_finance_public.Ledger.Calls.Soundness.{
  run_all-IsSound, run_all-Kept, run_all-entries_of,
}
use personal_finance_public.Ledger.Calls.Atomicity.{run-AuditOnly}
use personal_finance_public.Ledger.Replay.Conflict.{IsRefused, post_idempotently-conflict}
use personal_finance_public.Ledger.Replay.Keys.{build_transfer-SameKeys}
use personal_finance_public.Storage.Json.{JsonValue}
use personal_finance_public.Ledger.Replay.Commands.{issue, of_transfer, issue-replays}
use personal_finance_public.Tests.History.{history_found, with_history-IsSound}
use personal_finance_public.Tests.Sample.{
  env, sink, start, to_savings, moved, reversed_row, with_history,
}

abbrev after_transfer : World
after_transfer = (issue env sink (of_transfer to_savings) start).1

-- The sections of a run, from a command to its statements.
transfer_succeeds : (issue env sink (of_transfer to_savings) start).0 ≡ ok moved
unfolding issue Movements.create_transfer post_idempotently on_exception unit_of_work ◌>>=◌ reserve
    reserve_found reserve_new new_record canonical_payload_hash find execute
    insert_idempotency_record replay replay_or_post post_new Movements.build_transfer active_account
    get_account account_row new_account validated_name lookup update transfer_entries for_account
    Entry.new Money.positive Money.new new_posted validate_posting sum store_posted add_posted
    add_entries transaction_record insert_transaction insert_entry set_state guarded_update
    posting_guard posted_entry_guard complete update_idempotency_record as_json insert_audit_event
    normalize_required_description ◌==◌ decimal has_account Text.strip Text.append Text.rstrip
    Text.lstrip Text.is_space ◌+ℤ◌ neg
transfer_succeeds = refl

issue-replays_example :
    issue env sink (of_transfer to_savings) after_transfer
    ≡ (ok (record moved { replayed = true }), after_transfer)
issue-replays_example =
    issue-replays env sink (of_transfer to_savings) start after_transfer moved transfer_succeeds
      refl

abbrev nothing_to_move : Call
nothing_to_move = create_transfer (record to_savings { amount_cents = pos 0 })

transfer_refused : (run env sink nothing_to_move start).0 ≡ err invalid_amount
unfolding run effect_of Movements.create_transfer post_idempotently on_exception unit_of_work ◌>>=◌
    reserve reserve_found reserve_new new_record canonical_payload_hash find execute
    insert_idempotency_record replay replay_or_post post_new Movements.build_transfer active_account
    get_account account_row new_account validated_name lookup update transfer_entries for_account
    Entry.new Money.positive Money.new insert_audit_event record_failure
    normalize_required_description ◌==◌ decimal Text.strip Text.append Text.rstrip Text.lstrip
    Text.is_space ◌+ℤ◌ neg
transfer_refused = refl

run-AuditOnly_example : AuditOnly start.db (run env sink nothing_to_move start).1.db
run-AuditOnly_example = run-AuditOnly env sink nothing_to_move start transfer_refused

abbrev undo : ReverseCommand
undo = record {
  space_id = "home";
  original_transaction_id = "old";
  economic_date = none;
  cash_date = none;
  idempotency_key = "key-2";
  replacement = none;
}

abbrev session : List Call
session = create_transfer to_savings ∷ nothing_to_move ∷ reverse undo ∷ []

run_all-IsSound_example : IsSound (run_all env sink session with_history).db
run_all-IsSound_example = run_all-IsSound env sink session with_history with_history-IsSound

run_all-Kept_example :
    Kept reversed_row (lookup "old" (run_all env sink session with_history).db.transactions)
run_all-Kept_example =
    run_all-Kept env sink session with_history "old" reversed_row history_found refl

run_all-entries_of_example :
    entries_of "old" "home" (run_all env sink session with_history).db.entries
    ≡ entries_of "old" "home" with_history.db.entries
run_all-entries_of_example =
    run_all-entries_of env sink session with_history "old" reversed_row history_found refl

-- The state that the session leaves behind: the old transfer is voided by its reversal.
abbrev left_behind : World
left_behind = run_all env sink session with_history

abbrev transfer : World → Result CommandResult × World
transfer =
    post_idempotently env sink "home" "create_transfer" "key-1" (transfer_payload env to_savings)
      (Movements.build_transfer env to_savings) false

transfer_posted : (transfer start).0 ≡ ok moved
unfolding post_idempotently on_exception unit_of_work ◌>>=◌ reserve reserve_found reserve_new
    new_record canonical_payload_hash find execute insert_idempotency_record replay replay_or_post
    post_new Movements.build_transfer active_account get_account account_row new_account
    validated_name lookup update transfer_entries for_account Entry.new Money.positive Money.new
    new_posted validate_posting sum store_posted add_posted add_entries transaction_record
    insert_transaction insert_entry set_state guarded_update posting_guard posted_entry_guard
    complete update_idempotency_record as_json insert_audit_event ◌==◌ decimal has_account
    Text.strip Text.append Text.rstrip Text.lstrip Text.is_space ◌+ℤ◌ neg
transfer_posted = refl

-- The same key, given to an opening.
post_idempotently-conflict_example : IsRefused (transfer start).1.db (
    post_idempotently env sink "home" "create_opening" "key-1" JsonValue.null
      (Movements.build_transfer env to_savings)
      false
      (transfer start).1)
unfolding ◌==◌
post_idempotently-conflict_example =
    post_idempotently-conflict env sink "home" "key-1" "create_transfer" "create_opening"
      (transfer_payload env to_savings) JsonValue.null (Movements.build_transfer env to_savings)
      (Movements.build_transfer env to_savings) false false start (transfer start).1
      (build_transfer-SameKeys env to_savings) transfer_posted refl refl
