-- ===== src/Ledger/Calls/Soundness.antt =====
-- Runs of service calls and the history that they find.
use personal_finance_public.Base.{String, ◌≡◌, some, true, List, [], ◌∷◌}
use personal_finance_public.Storage.Exec.{Exec}
use personal_finance_public.Storage.Schema.Soundness.{Grows, IsSound, Kept}
use personal_finance_public.Storage.Schema.{TransactionRecord, is_history, transaction_keyed}
use personal_finance_public.Storage.Schema.Triggers.{entries_of}
use personal_finance_public.Storage.Table.{lookup}
use personal_finance_public.Storage.Schema.Others.{Grows-preorder}
use personal_finance_public.Storage.World.{Env, World}
use personal_finance_public.Storage.World.Rules.{Keeps, Keeps-bind, Keeps-pure}
use personal_finance_public.Ledger.Audit.{FinancialAuditSink}
use personal_finance_public.Ledger.Calls.{
  Call, create_account, create_category, ensure_starter_categories, rename_account,
  set_account_archived, rename_category, set_category_archived, create_draft, update_draft,
  discard_draft, post_draft, create_opening, create_category_movement, create_transfer, reverse,
  effect_of, run, run_all,
}
use personal_finance_public.Ledger.Growth

pub effect_of-Grows : {A : Type 0} (m : Exec World A) → Keeps Grows m → Keeps Grows (effect_of m)
unfolding effect_of
effect_of-Grows m k = Keeps-bind Grows-preorder m _ k (λ _. Keeps-pure Grows-preorder tt)

module _ (env : Env) (sink : FinancialAuditSink) where
  pub run-Grows : (call : Call) → Keeps Grows (run env sink call)
  unfolding run
  run-Grows (create_account c) = effect_of-Grows _ (Growth.create_account-Grows env sink c)
  run-Grows (create_category c) = effect_of-Grows _ (Growth.create_category-Grows env sink c)
  run-Grows (ensure_starter_categories s) =
      effect_of-Grows _ (Growth.ensure_starter_categories-Grows env sink s)
  run-Grows (rename_account s i n) = effect_of-Grows _ (Growth.rename_account-Grows s i n)
  run-Grows (set_account_archived s i b) =
      effect_of-Grows _ (Growth.set_account_archived-Grows s i b)
  run-Grows (rename_category s i n) = effect_of-Grows _ (Growth.rename_category-Grows s i n)
  run-Grows (set_category_archived s i b) =
      effect_of-Grows _ (Growth.set_category_archived-Grows s i b)
  run-Grows (create_draft c) = effect_of-Grows _ (Growth.create_draft-Grows env sink c)
  run-Grows (update_draft i c) = effect_of-Grows _ (Growth.update_draft-Grows env sink i c)
  run-Grows (discard_draft s i) = effect_of-Grows _ (Growth.discard_draft-Grows env sink s i)
  run-Grows (post_draft c) = effect_of-Grows _ (Growth.post_draft-Grows env sink c)
  run-Grows (create_opening c) = effect_of-Grows _ (Growth.create_opening-Grows env sink c)
  run-Grows (create_category_movement k c) =
      effect_of-Grows _ (Growth.create_category_movement-Grows env sink k c)
  run-Grows (create_transfer c) = effect_of-Grows _ (Growth.create_transfer-Grows env sink c)
  run-Grows (reverse c) = effect_of-Grows _ (Growth.reverse-Grows env sink c)

  pub run_all-Grows : (calls : List Call) (w : World) → Grows w.db (run_all env sink calls w).db
  unfolding run_all
  run_all-Grows [] w = Grows-preorder.reflexive w.db
  run_all-Grows (c ∷ calls) w =
      Grows-preorder.transitive w.db _ _ ((run-Grows c).at w) (run_all-Grows calls _)

  -- If every transaction that is history balances, it still does after any run of calls, whichever
  -- of them fail.
  pub run_all-IsSound :
      (calls : List Call) (w : World) → IsSound w.db → IsSound (run_all env sink calls w).db
  run_all-IsSound calls w sound = (run_all-Grows calls w).sound sound

  -- A transaction that is history is still there after any run of calls, with its snapshot, and its
  -- state has at most moved on, from posted to reconciled or voided, or from reconciled to voided.
  pub run_all-Kept :
      (calls : List Call) (w : World) (id : String) (t : TransactionRecord)
      → lookup id w.db.transactions ≡ some t
      → is_history t.state ≡ true
      → Kept t (lookup id (run_all env sink calls w).db.transactions)
  run_all-Kept calls w = (run_all-Grows calls w).preserves.kept

  -- The entries of a transaction that is history are the same after any run of calls.
  pub run_all-entries_of :
      (calls : List Call) (w : World) (id : String) (t : TransactionRecord)
      → lookup id w.db.transactions ≡ some t
      → is_history t.state ≡ true
      → entries_of t.id t.space_id (run_all env sink calls w).db.entries
        ≡ entries_of t.id t.space_id w.db.entries
  run_all-entries_of calls w = (run_all-Grows calls w).preserves.entries_kept
