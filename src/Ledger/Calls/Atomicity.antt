-- ===== src/Ledger/Calls/Atomicity.antt =====
-- What a service call that fails leaves behind.
use personal_finance_public.Base.{String, Bool, ◌≡◌, arith, Error, Result, ok, err}
use personal_finance_public.Domain.Account.{CategoryKind}
use personal_finance_public.Domain.Transaction.{Transaction}
use personal_finance_public.Storage.Json.{JsonValue}
use personal_finance_public.Storage.Exec.{Exec, pure, resume, ◌>>=◌}
use personal_finance_public.Storage.Schema.{Db}
use personal_finance_public.Storage.World.{Env, World}
use personal_finance_public.Storage.World.Rules.{Keeps, keeps_rules}
use personal_finance_public.Ledger.Commands.{
  CreateAccount, CreateCategory, DraftCommand, PostDraft, OpeningCommand, CategoryCommand,
  TransferCommand, ReverseCommand,
}
use personal_finance_public.Ledger.Audit.{FinancialAuditSink, AuditOnly, AuditOnly-preorder}
use personal_finance_public.Ledger.Catalog
use personal_finance_public.Ledger.Handlers.Support.{validate_draft}
use personal_finance_public.Ledger.Handlers.Posting.{record_failure, post_idempotently}
use personal_finance_public.Ledger.Handlers.Drafts
use personal_finance_public.Ledger.Handlers.Movements
use personal_finance_public.Ledger.Reversal
use personal_finance_public.Ledger.Calls.{
  Call, create_account, create_category, ensure_starter_categories, rename_account,
  set_account_archived, rename_category, set_category_archived, create_draft, update_draft,
  discard_draft, post_draft, create_opening, create_category_movement, create_transfer, reverse,
  effect_of, run,
}
use personal_finance_public.Ledger.Calls.Clean.{
  CleanIfFailed, FailsClean, unit_of_work-clean, on_exception-clean, bind-clean, Unchanged-preorder,
}

module _ (sink : FinancialAuditSink) where
  record_failure-AuditOnly :
      (env : Env) (s n c : String) → Keeps AuditOnly (record_failure env sink s n c)
  unfolding record_failure
  record_failure-AuditOnly env s n c =
      search (keeps_rules, AuditOnly-preorder, sink.audit_only) depth 8

ruleset clean_rules = (
  unit_of_work-clean, on_exception-clean, bind-clean, keeps_rules, Unchanged-preorder,
  record_failure-AuditOnly,
)

pub post_idempotently-clean :
    (env : Env) (sink : FinancialAuditSink) (s n k : String) (p : JsonValue)
    (build : Exec World Transaction) (b : Bool)
    → FailsClean (post_idempotently env sink s n k p build b)
unfolding post_idempotently
post_idempotently-clean env sink s n k p build b = search clean_rules

ruleset call_rules = (clean_rules, post_idempotently-clean)

effect-clean :
    {A : Type 0} (db : Db) (r : Result A) (w : World)
    → CleanIfFailed db (r, w)
    → CleanIfFailed db (resume (λ _. pure tt) (r, w))
effect-clean db (ok a) w h = tt
effect-clean db (err e) w h = h

effect_of-clean : {A : Type 0} (m : Exec World A) → FailsClean m → FailsClean (effect_of m)
unfolding effect_of ◌>>=◌
effect_of-clean m c = record { at = λ w. effect-clean w.db (m w).0 (m w).1 (c.at w) }

module _ (env : Env) where
  create_account-clean : (c : CreateAccount) → FailsClean (Catalog.create_account env c)
  unfolding Catalog.create_account
  create_account-clean c = search call_rules depth 10

  create_category-clean : (c : CreateCategory) → FailsClean (Catalog.create_category env c)
  unfolding Catalog.create_category Catalog.category_made
  create_category-clean c = search call_rules depth 10

  starters-clean : (s : String) → FailsClean (Catalog.ensure_starter_categories env s)
  unfolding Catalog.ensure_starter_categories
  starters-clean s = search clean_rules

  create_draft-clean : (c : DraftCommand) → FailsClean (Drafts.create_draft_handler env c)
  unfolding Drafts.create_draft_handler Drafts.normalized_draft validate_draft
  create_draft-clean c = search call_rules depth 14

  module _ (sink : FinancialAuditSink) where
    post_draft-clean : (c : PostDraft) → FailsClean (Drafts.post_draft env sink c)
    unfolding Drafts.post_draft
    post_draft-clean c = search call_rules

    create_opening-clean : (c : OpeningCommand) → FailsClean (Movements.create_opening env sink c)
    unfolding Movements.create_opening
    create_opening-clean c = search call_rules depth 10

    movement-clean :
        (k : CategoryKind) (c : CategoryCommand)
        → FailsClean (Movements.create_category_movement env sink k c)
    unfolding Movements.create_category_movement
    movement-clean k c = search call_rules depth 10

    create_transfer-clean :
        (c : TransferCommand) → FailsClean (Movements.create_transfer env sink c)
    unfolding Movements.create_transfer
    create_transfer-clean c = search call_rules depth 10

    reverse-clean : (c : ReverseCommand) → FailsClean (Reversal.reverse env sink c)
    unfolding Reversal.reverse
    reverse-clean c = search call_rules depth 10

rename_account-clean : (s i n : String) → FailsClean (Catalog.rename_account s i n)
unfolding Catalog.rename_account
rename_account-clean s i n = search clean_rules

account_archived-clean : (s i : String) (b : Bool) → FailsClean (Catalog.set_account_archived s i b)
unfolding Catalog.set_account_archived
account_archived-clean s i b = search clean_rules

rename_category-clean : (s i n : String) → FailsClean (Catalog.rename_category_handler s i n)
unfolding Catalog.rename_category_handler
rename_category-clean s i n = search clean_rules

category_archived-clean :
    (s i : String) (b : Bool) → FailsClean (Catalog.set_category_archived s i b)
unfolding Catalog.set_category_archived
category_archived-clean s i b = search clean_rules

update_draft-clean : (i : String) (c : DraftCommand) → FailsClean (Drafts.update_draft_handler i c)
unfolding Drafts.update_draft_handler Drafts.normalized_draft validate_draft
update_draft-clean i c = search call_rules depth 14

discard_draft-clean : (s i : String) → FailsClean (Drafts.discard_draft_handler s i)
unfolding Drafts.discard_draft_handler
discard_draft-clean s i = search clean_rules

module _ (env : Env) (sink : FinancialAuditSink) where
  pub run-FailsClean : (call : Call) → FailsClean (run env sink call)
  unfolding run
  run-FailsClean (create_account c) = effect_of-clean _ (create_account-clean env c)
  run-FailsClean (create_category c) = effect_of-clean _ (create_category-clean env c)
  run-FailsClean (ensure_starter_categories s) = effect_of-clean _ (starters-clean env s)
  run-FailsClean (rename_account s i n) = effect_of-clean _ (rename_account-clean s i n)
  run-FailsClean (set_account_archived s i b) = effect_of-clean _ (account_archived-clean s i b)
  run-FailsClean (rename_category s i n) = effect_of-clean _ (rename_category-clean s i n)
  run-FailsClean (set_category_archived s i b) = effect_of-clean _ (category_archived-clean s i b)
  run-FailsClean (create_draft c) = effect_of-clean _ (create_draft-clean env c)
  run-FailsClean (update_draft i c) = effect_of-clean _ (update_draft-clean i c)
  run-FailsClean (discard_draft s i) = effect_of-clean _ (discard_draft-clean s i)
  run-FailsClean (post_draft c) = effect_of-clean _ (post_draft-clean env sink c)
  run-FailsClean (create_opening c) = effect_of-clean _ (create_opening-clean env sink c)
  run-FailsClean (create_category_movement k c) = effect_of-clean _ (movement-clean env sink k c)
  run-FailsClean (create_transfer c) = effect_of-clean _ (create_transfer-clean env sink c)
  run-FailsClean (reverse c) = effect_of-clean _ (reverse-clean env sink c)

clean_failed :
    {A : Type 0} (db : Db) (r : Result A) (w : World) {e : Error}
    → CleanIfFailed db (r, w)
    → r ≡ err e
    → AuditOnly db w.db
clean_failed db (ok a) w c h = absurd (ground (arith, h))
clean_failed db (err e) w c h = c

module _ (env : Env) (sink : FinancialAuditSink) where
  -- A ledger service call that ends in an error leaves every table of the database as it was, except
  -- that audit events may have been added: those that were there stay.
  pub run-AuditOnly :
      (call : Call) (w : World) {e : Error}
      → (run env sink call w).0 ≡ err e
      → AuditOnly w.db (run env sink call w).1.db
  run-AuditOnly call w h = clean_failed w.db _ _ ((run-FailsClean env sink call).at w) h
