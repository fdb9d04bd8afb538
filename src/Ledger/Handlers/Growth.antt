-- ===== src/Ledger/Handlers/Growth.antt =====
-- What the commands of handlers.py share, under the relation `Grows`.
use personal_finance_public.Base.{
  String, Bool, true, false, Option, none, some, Result, ok, err, entity_not_found,
}
use personal_finance_public.Domain.Transaction.{
  Transaction, TransactionKind, opening, income, expense, transfer, reversal,
}
use personal_finance_public.Storage.Json.{JsonValue}
use personal_finance_public.Storage.Exec.{Exec}
use personal_finance_public.Storage.Schema.Soundness.{Grows}
use personal_finance_public.Storage.Schema.Others.{Grows-preorder}
use personal_finance_public.Storage.Schema.{IdempotencyRecord}
use personal_finance_public.Storage.World.{Env, World}
use personal_finance_public.Storage.World.Rules.{Keeps}
use personal_finance_public.Ledger.Commands.{DraftCommand}
use personal_finance_public.Ledger.Audit.{FinancialAuditSink, Outcome, Keeps-AuditOnly-Grows}
use personal_finance_public.Ledger.Idempotency.{
  IdempotencyReservation, reserve, reserve_new, reserve_found, complete,
}
use personal_finance_public.Ledger.Repository.Growth.{repository_rules}
use personal_finance_public.Ledger.Handlers.Support.{
  active_account, active_category, except_missing, handle_missing, ensure_equity, required,
  selections_for, validate_selections,
}
use personal_finance_public.Ledger.Handlers.Posting.{record_failure, store_posted, post_new}

pub active_account-Grows : (s i : String) → Keeps Grows (active_account s i)
unfolding active_account
active_account-Grows s i = search repository_rules depth 8

pub active_category-Grows : (s i : String) → Keeps Grows (active_category s i)
unfolding active_category
active_category-Grows s i = search repository_rules depth 8

handle_missing-Grows :
    {A : Type 0} (handler : Exec World A) (w w' : World) (r : Result A)
    → Keeps Grows handler
    → Grows w.db w'.db
    → Grows w.db (handle_missing handler (r, w')).1.db
handle_missing-Grows handler w w' (ok a) k h = h
handle_missing-Grows handler w w' (err entity_not_found) k h =
    Grows-preorder.transitive w.db w'.db (handler w').1.db h (k.at w')
handle_missing-Grows handler w w' (err e) k h = h

pub except_missing-Grows :
    {A : Type 0} (m handler : Exec World A)
    → Keeps Grows m
    → Keeps Grows handler
    → Keeps Grows (except_missing m handler)
unfolding except_missing
except_missing-Grows m handler km kh = record {
  at = λ w. handle_missing-Grows handler w (m w).1 (m w).0 kh (km.at w);
}

pub ensure_equity-Grows : (s : String) → Keeps Grows (ensure_equity s)
unfolding ensure_equity
ensure_equity-Grows s = search (repository_rules, except_missing-Grows) depth 10

pub required-Grows : (o : Option String) → Keeps Grows (required o)
required-Grows none = search repository_rules
required-Grows (some i) = search repository_rules

pub ruleset support_rules = (
  repository_rules, active_account-Grows, active_category-Grows, ensure_equity-Grows,
  required-Grows,
)

selections_for-Grows : (k : TransactionKind) (c : DraftCommand) → Keeps Grows (selections_for k c)
unfolding selections_for
selections_for-Grows income c = search support_rules depth 8
selections_for-Grows expense c = search support_rules depth 8
selections_for-Grows transfer c = search support_rules depth 8
selections_for-Grows opening c = search support_rules
selections_for-Grows reversal c = search support_rules

pub validate_selections-Grows : (c : DraftCommand) → Keeps Grows (validate_selections c)
unfolding validate_selections
validate_selections-Grows c = search (support_rules, selections_for-Grows) depth 8

pub reserve_new-Grows : (env : Env) (s c k h : String) → Keeps Grows (reserve_new env s c k h)
unfolding reserve_new
reserve_new-Grows env s c k h = search repository_rules depth 8

reserve_found-Grows :
    (env : Env) (o : Option IdempotencyRecord) (s c k h : String)
    → Keeps Grows (reserve_found env o s c k h)
unfolding reserve_found
reserve_found-Grows env none s c k h = reserve_new-Grows env s c k h
reserve_found-Grows env (some r) s c k h = search repository_rules

pub reserve-Grows : (env : Env) (s c k : String) (p : JsonValue) → Keeps Grows (reserve env s c k p)
unfolding reserve
reserve-Grows env s c k p = search (repository_rules, reserve_found-Grows) depth 8

pub complete-Grows :
    (env : Env) (r : IdempotencyReservation) (p : JsonValue) → Keeps Grows (complete env r p)
unfolding complete
complete-Grows env r p = search repository_rules depth 12

module _ (sink : FinancialAuditSink) where
  pub record_outcome-Grows :
      (a : String) (o : Outcome) (s : String) (t : Option String) (c : String)
      → Keeps Grows (sink.record_outcome a o s t c)
  record_outcome-Grows a o s t c = Keeps-AuditOnly-Grows _ (sink.audit_only a o s t c)

  pub record_failure-Grows :
      (env : Env) (s n c : String) → Keeps Grows (record_failure env sink s n c)
  unfolding record_failure
  record_failure-Grows env s n c = search (repository_rules, record_outcome-Grows) depth 8

pub ruleset command_rules = (
  support_rules, except_missing-Grows, validate_selections-Grows, reserve-Grows, complete-Grows,
  record_outcome-Grows, record_failure-Grows,
)

module _ (env : Env) (sink : FinancialAuditSink) where
  store_posted-Grows : (b : Bool) (t : Transaction) → Keeps Grows (store_posted env sink b t)
  unfolding store_posted
  store_posted-Grows true t = search repository_rules
  store_posted-Grows false t = search repository_rules

  module _ (s n k : String) (build : Exec World Transaction) (b : Bool) where
    pub post_new-Grows :
        (r : IdempotencyReservation)
        → Keeps Grows build
        → Keeps Grows (post_new env sink s n k build b r)
    unfolding post_new
    post_new-Grows r kb = search (command_rules, store_posted-Grows) depth 12
