-- ===== src/Ledger/Calls.antt =====
-- The operations of the ledger's services that change the database, as one type, and a run of them.
pub mod Soundness
pub mod Clean
pub mod Atomicity
use personal_finance_public.Base.{⊤, String, Bool, List, [], ◌∷◌}
use personal_finance_public.Domain.Account.{CategoryKind}
use personal_finance_public.Storage.Exec.{Exec, pure, ◌>>=◌}
use personal_finance_public.Storage.World.{Env, World}
use personal_finance_public.Ledger.Commands.{
  CreateAccount, CreateCategory, DraftCommand, PostDraft, OpeningCommand, CategoryCommand,
  TransferCommand, ReverseCommand,
}
use personal_finance_public.Ledger.Audit.{FinancialAuditSink}
use personal_finance_public.Ledger.Catalog
use personal_finance_public.Ledger.Handlers.Drafts
use personal_finance_public.Ledger.Handlers.Movements
use personal_finance_public.Ledger.Reversal

pub data Call : Type 0 where
  create_account : CreateAccount → Call
  create_category : CreateCategory → Call
  ensure_starter_categories : String → Call
  rename_account : String → String → String → Call
  set_account_archived : String → String → Bool → Call
  rename_category : String → String → String → Call
  set_category_archived : String → String → Bool → Call
  create_draft : DraftCommand → Call
  update_draft : String → DraftCommand → Call
  discard_draft : String → String → Call
  post_draft : PostDraft → Call
  create_opening : OpeningCommand → Call
  create_category_movement : CategoryKind → CategoryCommand → Call
  create_transfer : TransferCommand → Call
  reverse : ReverseCommand → Call

-- A method for its effect and its error alone.
unfoldable pub effect_of : {A : Type 0} → Exec World A → Exec World ⊤
effect_of m = do _ ← m; pure tt

module _ (env : Env) (sink : FinancialAuditSink) where
  unfoldable pub run : Call → Exec World ⊤
  run (create_account c) = effect_of (Catalog.create_account env c)
  run (create_category c) = effect_of (Catalog.create_category env c)
  run (ensure_starter_categories s) = effect_of (Catalog.ensure_starter_categories env s)
  run (rename_account s i n) = effect_of (Catalog.rename_account s i n)
  run (set_account_archived s i b) = effect_of (Catalog.set_account_archived s i b)
  run (rename_category s i n) = effect_of (Catalog.rename_category_handler s i n)
  run (set_category_archived s i b) = effect_of (Catalog.set_category_archived s i b)
  run (create_draft c) = effect_of (Drafts.create_draft_handler env c)
  run (update_draft i c) = effect_of (Drafts.update_draft_handler i c)
  run (discard_draft s i) = effect_of (Drafts.discard_draft_handler s i)
  run (post_draft c) = effect_of (Drafts.post_draft env sink c)
  run (create_opening c) = effect_of (Movements.create_opening env sink c)
  run (create_category_movement k c) = effect_of (Movements.create_category_movement env sink k c)
  run (create_transfer c) = effect_of (Movements.create_transfer env sink c)
  run (reverse c) = effect_of (Reversal.reverse env sink c)

  -- The calls of a session one after another, each in its own unit of work: a call that fails does
  -- not stop the next.
  unfoldable pub run_all : List Call → World → World
  run_all [] w = w
  run_all (c ∷ calls) w = run_all calls (run c w).1
