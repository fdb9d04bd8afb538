-- ===== src/Reconciliation/Service.antt =====
-- backend/app/reconciliation/application/service.py
pub mod Growth
pub mod Exactness
pub mod Completion
pub mod Membership
use personal_finance_public.Base.{
  ⊤, String, ℕ, Bool, true, false, not, Option, none, some, List, [], ◌∷◌, any, map, Result, ok,
  ineligible_entry,
}
use personal_finance_public.Base.Int.{ℤ}
use personal_finance_public.Domain.Account.{Account}
use personal_finance_public.Domain.Transaction.{Date, Transaction, TransactionStatus}
use personal_finance_public.Storage.Exec.{Exec, pure, lift, guard, ◌>>=◌, ◌>>◌}
use personal_finance_public.Storage.World.{
  Env, World, uuid4, utc_now, query, committed, returned, Exit, unit_of_work, on_exception,
}
use personal_finance_public.Storage.World.Rules.{Keeps}
use personal_finance_public.Ledger.Audit.{Outcome, success, failure, AuditOnly}
use personal_finance_public.Ledger.Projection.{project_transaction_state}
use personal_finance_public.Reconciliation.{
  ReconciliationCandidate, ReconciliationStatus, draft, Reconciliation, mem, new_selection,
  draft_reconciliation, selected_effect_cents, checked_balance_cents, difference_cents,
  complete_reconciliation,
}
use personal_finance_public.Reconciliation.Repository
use personal_finance_public.Reconciliation.Repository.{
  prior_completed_cents, add_completed, transactions_for_entries, reconcilable_accounts,
  completed_entry_ids, set_transaction_state,
}

-- `ReconciliationAuditWriter`, whose one action is `complete_reconciliation`: it may refuse an
-- outcome, and writes nothing but audit events.
pub record ReconciliationAuditWriter : Type 0 where
  pub record_outcome : Outcome → String → Option String → String → Exec World ⊤
  pub audit_only :
      (outcome : Outcome) (space_id : String) (reconciliation_id : Option String)
      (correlation_id : String)
      → Keeps AuditOnly (record_outcome outcome space_id reconciliation_id correlation_id)

pub record ReconciliationResult : Type 0 where
  pub reconciliation_id : String
  pub status : ReconciliationStatus
  pub account_id : String
  pub cutoff_date : Date
  pub observed_balance_cents : ℤ
  pub prior_completed_cents : ℤ
  pub selected_effect_cents : ℤ
  pub checked_balance_cents : ℤ
  pub difference_cents : ℤ
  pub selected_entry_ids : List String
  pub transaction_states : List (String × TransactionStatus)

-- `_result`
unfoldable pub result_of : Reconciliation → List (String × TransactionStatus) → ReconciliationResult
result_of r transaction_states = record {
  reconciliation_id = r.id;
  status = r.status;
  account_id = r.account_id;
  cutoff_date = r.cutoff_date;
  observed_balance_cents = r.observed_balance_cents;
  prior_completed_cents = r.prior_completed_cents;
  selected_effect_cents = selected_effect_cents r;
  checked_balance_cents = checked_balance_cents r;
  difference_cents = difference_cents r;
  selected_entry_ids = r.selection;
  transaction_states = transaction_states;
}

unfoldable pub list_candidates : String → String → Date → Exec World (List ReconciliationCandidate)
list_candidates space_id account_id cutoff_date = unit_of_work do
  candidates ← Repository.list_candidates space_id account_id cutoff_date
  pure (returned candidates)

-- What a caller asks for.
pub record ReconciliationRequest : Type 0 where
  pub space_id : String
  pub account_id : String
  pub cutoff_date : Date
  pub observed_balance_cents : ℤ
  pub entry_ids : List String

-- `_draft`
unfoldable pub draft_of : String → ReconciliationRequest → Exec World Reconciliation
draft_of reconciliation_id q = do
  candidates ← Repository.list_candidates q.space_id q.account_id q.cutoff_date
  guard (any (λ entry_id. not (mem entry_id (map (λ c. c.entry_id) candidates))) q.entry_ids)
      ineligible_entry
  prior ← prior_completed_cents q.space_id q.account_id q.cutoff_date
  selection ← lift (new_selection q.entry_ids)
  lift (
      draft_reconciliation (record {
        id = reconciliation_id;
        space_id = q.space_id;
        account_id = q.account_id;
        cutoff_date = q.cutoff_date;
        observed_balance_cents = q.observed_balance_cents;
        prior_completed_cents = prior;
        candidates = candidates;
        selection = selection;
        status = draft;
      }))

-- The loop of `_project_affected_transactions`.
unfoldable pub project_each :
    String → List Account → List Transaction → Exec World (List (String × TransactionStatus))
project_each space_id accounts [] = pure []
project_each space_id accounts (t ∷ rest) = do
  done ← query (completed_entry_ids space_id t.id)
  let state : TransactionStatus = project_transaction_state t accounts done
  set_transaction_state space_id t.id state
  others ← project_each space_id accounts rest
  pure ((t.id, state) ∷ others)

unfoldable pub project_affected_transactions :
    String → List String → Exec World (List (String × TransactionStatus))
project_affected_transactions space_id entry_ids = do
  accounts ← reconcilable_accounts space_id
  transactions ← transactions_for_entries space_id entry_ids
  project_each space_id accounts transactions

module _ (env : Env) where
  unfoldable pub preview : ReconciliationRequest → Exec World ReconciliationResult
  preview q = unit_of_work do id ← uuid4 env; r ← draft_of id q; pure (returned (result_of r []))

  module _ (writer : ReconciliationAuditWriter) where
    -- `_record_failure`
    unfoldable pub record_failure : String → String → Exec World ⊤
    record_failure space_id correlation_id =
        unit_of_work
          do writer.record_outcome failure space_id none correlation_id; pure (committed tt)

    -- The body of the unit of work of `complete`.
    unfoldable pub complete_body :
        String → ReconciliationRequest → String → Exec World (Exit ReconciliationResult)
    complete_body reconciliation_id q correlation_id = do
      drafted ← draft_of reconciliation_id q
      r ← lift (complete_reconciliation drafted)
      completed_at ← utc_now env
      add_completed r completed_at
      states ← project_affected_transactions r.space_id r.selection
      writer.record_outcome success q.space_id (some r.id) correlation_id
      pure (committed (result_of r states))

    unfoldable pub complete : ReconciliationRequest → String → Exec World ReconciliationResult
    complete q correlation_id = do
      reconciliation_id ← uuid4 env
      on_exception (unit_of_work (complete_body reconciliation_id q correlation_id))
          (record_failure q.space_id correlation_id)
