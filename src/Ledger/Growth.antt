-- ===== src/Ledger/Growth.antt =====
-- The commands of handlers.py, reversal.py and catalog.py under the relation `Grows`.
use personal_finance_public.Base.{String, Bool, Option, none, some}
use personal_finance_public.Domain.Account.{Category, CategoryKind}
use personal_finance_public.Domain.Transaction.{
  Transaction, TransactionKind, Date, opening, income, expense, transfer, reversal,
}
use personal_finance_public.Storage.Json.{JsonValue}
use personal_finance_public.Storage.Exec.{Exec}
use personal_finance_public.Storage.Schema.Soundness.{Grows}
use personal_finance_public.Storage.World.{Env, World}
use personal_finance_public.Storage.World.Rules.{Keeps}
use personal_finance_public.Ledger.Commands.{
  CreateAccount, CreateCategory, DraftCommand, PostDraft, OpeningCommand, CategoryCommand,
  TransferCommand, ReverseCommand, CommandResult,
}
use personal_finance_public.Ledger.Audit.{FinancialAuditSink}
use personal_finance_public.Ledger.Idempotency.{IdempotencyReservation}
use personal_finance_public.Ledger.Handlers.Growth.{command_rules, post_new-Grows}
use personal_finance_public.Ledger.Handlers.Support.{validate_draft}
use personal_finance_public.Ledger.Handlers.Posting.{replay_or_post, post_idempotently}
use personal_finance_public.Ledger.Handlers.Drafts.{
  normalized_draft, create_draft_handler, update_draft_handler, discard_draft_handler,
  entries_from_draft, posted_from_draft, build_from_draft, post_draft,
}
use personal_finance_public.Ledger.Handlers.Movements.{
  build_opening, build_movement, build_transfer, create_opening, create_category_movement,
  create_transfer,
}
use personal_finance_public.Ledger.Reversal.{
  add_replacement, date_or_today, cash_date_of_reversal, build_reversal, apply_reversal,
  reverse_once, reverse,
}
use personal_finance_public.Ledger.Catalog.{
  create_account, category_made, create_category, starter_missing, ensure_starter,
  ensure_starter_categories, rename_account, set_account_archived, rename_category_handler,
  set_category_archived,
}

module _ (env : Env) (sink : FinancialAuditSink) where
  module _ (s n k : String) (build : Exec World Transaction) (b : Bool) where
    replay_or_post-Grows :
        (r : IdempotencyReservation) (o : Option CommandResult)
        → Keeps Grows build
        → Keeps Grows (replay_or_post env sink s n k build b r o)
    unfolding replay_or_post
    replay_or_post-Grows r none kb = post_new-Grows env sink s n k build b r kb
    replay_or_post-Grows r (some c) kb = search command_rules

    post_idempotently-Grows :
        (p : JsonValue)
        → Keeps Grows build
        → Keeps Grows (post_idempotently env sink s n k p build b)
    unfolding post_idempotently
    post_idempotently-Grows p kb = search (command_rules, replay_or_post-Grows) depth 12

  entries_from_draft-Grows :
      (e1 e2 : String) (t : TransactionKind) (c : DraftCommand) (a : String) (d : Option Date)
      → Keeps Grows (entries_from_draft e1 e2 t c a d)
  unfolding entries_from_draft
  entries_from_draft-Grows e1 e2 opening c a d = search command_rules depth 12
  entries_from_draft-Grows e1 e2 income c a d = search command_rules depth 8
  entries_from_draft-Grows e1 e2 expense c a d = search command_rules depth 8
  entries_from_draft-Grows e1 e2 transfer c a d = search command_rules depth 8
  entries_from_draft-Grows e1 e2 reversal c a d = search command_rules

  ruleset handler_rules = (command_rules, post_idempotently-Grows, entries_from_draft-Grows)

  build_from_draft-Grows : (c : PostDraft) → Keeps Grows (build_from_draft env c)
  unfolding build_from_draft posted_from_draft
  build_from_draft-Grows c = search handler_rules depth 20

  pub create_draft-Grows : (c : DraftCommand) → Keeps Grows (create_draft_handler env c)
  unfolding create_draft_handler normalized_draft validate_draft
  create_draft-Grows c = search handler_rules depth 20

  pub update_draft-Grows :
      (id : String) (c : DraftCommand) → Keeps Grows (update_draft_handler id c)
  unfolding update_draft_handler normalized_draft validate_draft
  update_draft-Grows id c = search handler_rules depth 20

  pub discard_draft-Grows : (s id : String) → Keeps Grows (discard_draft_handler s id)
  unfolding discard_draft_handler
  discard_draft-Grows s id = search handler_rules depth 8

  pub post_draft-Grows : (c : PostDraft) → Keeps Grows (post_draft env sink c)
  unfolding post_draft
  post_draft-Grows c = search (handler_rules, build_from_draft-Grows)

  build_opening-Grows : (c : OpeningCommand) → Keeps Grows (build_opening env c)
  unfolding build_opening
  build_opening-Grows c = search handler_rules depth 20

  pub create_opening-Grows : (c : OpeningCommand) → Keeps Grows (create_opening env sink c)
  unfolding create_opening
  create_opening-Grows c = search (handler_rules, build_opening-Grows) depth 8

  build_movement-Grows :
      (kind : CategoryKind) (c : CategoryCommand) → Keeps Grows (build_movement env kind c)
  unfolding build_movement
  build_movement-Grows kind c = search handler_rules depth 20

  pub create_category_movement-Grows :
      (kind : CategoryKind) (c : CategoryCommand)
      → Keeps Grows (create_category_movement env sink kind c)
  unfolding create_category_movement
  create_category_movement-Grows kind c = search (handler_rules, build_movement-Grows) depth 8

  build_transfer-Grows : (c : TransferCommand) → Keeps Grows (build_transfer env c)
  unfolding build_transfer
  build_transfer-Grows c = search handler_rules depth 20

  pub create_transfer-Grows : (c : TransferCommand) → Keeps Grows (create_transfer env sink c)
  unfolding create_transfer
  create_transfer-Grows c = search (handler_rules, build_transfer-Grows) depth 8

  add_replacement-Grows :
      (s o : String) (d : Option DraftCommand) → Keeps Grows (add_replacement env s o d)
  unfolding add_replacement
  add_replacement-Grows s o none = search command_rules
  add_replacement-Grows s o (some d) = search command_rules depth 12

  date_or_today-Grows : (d : Option Date) → Keeps Grows (date_or_today env d)
  unfolding date_or_today
  date_or_today-Grows none = search command_rules
  date_or_today-Grows (some d) = search command_rules

  cash_date-Grows : (o d : Option Date) → Keeps Grows (cash_date_of_reversal env o d)
  unfolding cash_date_of_reversal
  cash_date-Grows none d = search command_rules
  cash_date-Grows (some o) d = search (command_rules, date_or_today-Grows) depth 8

  build_reversal-Grows :
      (c : ReverseCommand) (t : Transaction) → Keeps Grows (build_reversal env c t)
  unfolding build_reversal
  build_reversal-Grows c t = search (command_rules, date_or_today-Grows, cash_date-Grows) depth 20

  pub apply_reversal-Grows : (c : ReverseCommand) → Keeps Grows (apply_reversal env c)
  unfolding apply_reversal
  apply_reversal-Grows c =
      search (command_rules, build_reversal-Grows, add_replacement-Grows) depth 20

  reverse_once-Grows :
      (c : ReverseCommand) (r : IdempotencyReservation) (o : Option CommandResult)
      → Keeps Grows (reverse_once env sink c r o)
  unfolding reverse_once
  reverse_once-Grows c r none = search (command_rules, apply_reversal-Grows) depth 12
  reverse_once-Grows c r (some o) = search command_rules

  pub reverse-Grows : (c : ReverseCommand) → Keeps Grows (reverse env sink c)
  unfolding reverse
  reverse-Grows c = search (command_rules, reverse_once-Grows) depth 16

  pub create_account-Grows : (c : CreateAccount) → Keeps Grows (create_account env c)
  unfolding create_account
  create_account-Grows c = search command_rules depth 12

  category_made-Grows : (s n : String) (k : CategoryKind) → Keeps Grows (category_made env s n k)
  unfolding category_made
  category_made-Grows s n k = search command_rules depth 8

  pub create_category-Grows : (c : CreateCategory) → Keeps Grows (create_category env c)
  unfolding create_category
  create_category-Grows c = search (command_rules, category_made-Grows) depth 8

  starter_missing-Grows :
      (o : Option Category) (s n : String) (k : CategoryKind)
      → Keeps Grows (starter_missing env o s n k)
  unfolding starter_missing
  starter_missing-Grows none s n k = search (command_rules, category_made-Grows) depth 8
  starter_missing-Grows (some c) s n k = search command_rules

  pub ensure_starter_categories-Grows : (s : String) → Keeps Grows (ensure_starter_categories env s)
  unfolding ensure_starter_categories ensure_starter
  ensure_starter_categories-Grows s = search (command_rules, starter_missing-Grows) depth 16

pub rename_account-Grows : (s i n : String) → Keeps Grows (rename_account s i n)
unfolding rename_account
rename_account-Grows s i n = search command_rules depth 12

pub set_account_archived-Grows :
    (s i : String) (b : Bool) → Keeps Grows (set_account_archived s i b)
unfolding set_account_archived
set_account_archived-Grows s i b = search command_rules depth 12

pub rename_category-Grows : (s i n : String) → Keeps Grows (rename_category_handler s i n)
unfolding rename_category_handler
rename_category-Grows s i n = search command_rules depth 12

pub set_category_archived-Grows :
    (s i : String) (b : Bool) → Keeps Grows (set_category_archived s i b)
unfolding set_category_archived
set_category_archived-Grows s i b = search command_rules depth 12
