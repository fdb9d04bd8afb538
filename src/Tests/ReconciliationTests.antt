-- ===== src/Tests/ReconciliationTests.antt =====
-- The reconciliation service's properties at a concrete run.
use personal_finance_public.Storage.Schema.Statements.{
  insert_audit_event, set_state, insert_reconciliation_entry, insert_reconciliation, has_account,
  guarded_update,
}
use personal_finance_public.Storage.CanonicalJson.{digit, decimal}
use personal_finance_public.Audit.Redaction.{
  value_equals, is_secret_value, allowed_keys, after_word, search_in, is_forbidden_key, minimized,
  minimize_metadata,
}
use personal_finance_public.Audit.Record.{to_fields, record_of, encode_metadata}
use personal_finance_public.Audit.Event.{
  required_identifier, optional_identifier, is_identifier, from_draft, is_sorted, new_event_draft,
}
use personal_finance_public.Audit.Service.{append_in_transaction}
use personal_finance_public.Audit.Bindings.{outcome_draft, record_reconciliation}
use personal_finance_public.Base.Text.{append, is_space, lstrip, rstrip, strip}
use personal_finance_public.Storage.World.{or_integrity, execute, unit_of_work, on_exception}
use personal_finance_public.Storage.Table.{update, lookup}
use personal_finance_public.Storage.Schema.Triggers.{posting_guard}
use personal_finance_public.Reconciliation.{
  selected_effect_cents, new_selection, new_reconciliation, draft_reconciliation, difference_cents,
  complete_reconciliation, checked_balance_cents, completed, distinct,
}
use personal_finance_public.Reconciliation.Service.{
  result_of, record_failure, project_each, project_affected_transactions, draft_of, complete_body,
  ReconciliationAuditWriter, ReconciliationRequest, ReconciliationResult, complete,
}
use personal_finance_public.Reconciliation.Repository.{
  transactions_for_entries, transaction_ids, set_transaction_state, reconcilable_accounts,
  read_transactions, distinct_ids, completed_entry_ids, add_memberships, add_completed,
  prior_completed_cents, get_account, list_candidates, candidates_of,
}
use personal_finance_public.Ledger.Repository.Transactions.{
  transaction_row, transaction_of, status_of, entries,
}
use personal_finance_public.Ledger.Repository.Catalog.{all_accounts, account_row}
use personal_finance_public.Ledger.Projection.{reconcilable_entry_ids, project_transaction_state}
use personal_finance_public.Domain.Account.{validated_name, new_account}
use personal_finance_public.Base.{text_le, ◌==◌, ◌≡◌, refl, true, [], ◌∷◌, ok, All}
use personal_finance_public.Base.Int.{◌-ℤ◌, ◌+ℤ◌, sum, neg, pos}
use personal_finance_public.Storage.Exec.{◌>>=◌}
use personal_finance_public.Domain.Transaction.{TransactionStatus}
use personal_finance_public.Ledger.Calls.Clean.{FailsClean}
use personal_finance_public.Reconciliation.Repository.Candidates.{
  IsOpenCandidate, candidates_of-IsOpenCandidate,
}
use personal_finance_public.Reconciliation.Service.Exactness.{
  IsExact, complete-IsExact, complete-FailsClean,
}
use personal_finance_public.Reconciliation.Service.Membership.{members, complete-distinct}
use personal_finance_public.Reconciliation.Service.Completion.{Completes, complete-Completes}
use personal_finance_public.Audit.Bindings.Sinks.{reconciliation_writer}
use personal_finance_public.Tests.Sample.{env, with_history}
use personal_finance_public.Audit.Repository

abbrev writer : ReconciliationAuditWriter
writer = reconciliation_writer env

abbrev of_bank : ReconciliationRequest
of_bank = record {
  space_id = "home";
  account_id = "bank";
  cutoff_date = 738000;
  observed_balance_cents = pos 100;
  entry_ids = "e1" ∷ [];
}

abbrev reconciled_bank : ReconciliationResult
reconciled_bank = record {
  reconciliation_id = "id0";
  status = completed;
  account_id = "bank";
  cutoff_date = 738000;
  observed_balance_cents = pos 100;
  prior_completed_cents = pos 0;
  selected_effect_cents = pos 100;
  checked_balance_cents = pos 100;
  difference_cents = pos 0;
  selected_entry_ids = "e1" ∷ [];
  transaction_states = ("old", TransactionStatus.posted) ∷ [];
}

bank_completes : (complete env writer of_bank "key-7" with_history).0 ≡ ok reconciled_bank
unfolding complete ◌>>=◌ on_exception unit_of_work complete_body draft_of list_candidates
    get_account account_row lookup ◌==◌ new_account strip rstrip lstrip is_space candidates_of
    prior_completed_cents neg sum ◌+ℤ◌ ◌-ℤ◌ text_le validated_name project_transaction_state
    reconcilable_entry_ids all_accounts entries status_of transaction_of transaction_row
    add_completed add_memberships completed_entry_ids distinct_ids read_transactions
    reconcilable_accounts set_transaction_state transaction_ids transactions_for_entries
    project_affected_transactions project_each record_failure result_of checked_balance_cents
    complete_reconciliation difference_cents draft_reconciliation new_reconciliation new_selection
    selected_effect_cents guarded_update has_account insert_reconciliation
    insert_reconciliation_entry set_state posting_guard update execute or_integrity append decimal
    reconciliation_writer record_reconciliation outcome_draft minimize_metadata minimized
    is_forbidden_key search_in after_word allowed_keys is_secret_value new_event_draft is_sorted
    append_in_transaction from_draft is_identifier optional_identifier required_identifier
    encode_metadata record_of to_fields value_equals digit insert_audit_event Repository.append
bank_completes = refl

complete-IsExact_example : IsExact of_bank with_history.db reconciled_bank
complete-IsExact_example = complete-IsExact env writer of_bank "key-7" with_history bank_completes

complete-Completes_example :
    Completes ("e1" ∷ []) with_history.db (complete env writer of_bank "key-7" with_history).1.db
complete-Completes_example =
    complete-Completes env writer of_bank "key-7" with_history bank_completes

complete-distinct_example :
    distinct (members (complete env writer of_bank "key-7" with_history).1.db) ≡ true
complete-distinct_example = complete-distinct env writer of_bank "key-7" with_history refl

complete-FailsClean_example :
    FailsClean (complete env writer (record of_bank { observed_balance_cents = pos 99 }) "key-7")
complete-FailsClean_example =
    complete-FailsClean env writer (record of_bank { observed_balance_cents = pos 99 }) "key-7"

candidates_of-IsOpenCandidate_example :
    All
      (IsOpenCandidate "home" "bank" 738000 with_history.db)
      (candidates_of "home" "bank" 738000 with_history.db)
candidates_of-IsOpenCandidate_example =
    candidates_of-IsOpenCandidate "home" "bank" 738000 with_history.db
