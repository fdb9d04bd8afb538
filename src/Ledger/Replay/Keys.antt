-- ===== src/Ledger/Replay/Keys.antt =====
-- What the posting commands of handlers.py do between reserving a key and completing it.
use personal_finance_public.Base.{
  String, ℕ, Bool, true, false, Option, none, some, List, [], ◌∷◌, arith, Result, ok, err,
  entity_not_found,
}
use personal_finance_public.Domain.Account.{Account, CategoryKind}
use personal_finance_public.Domain.Entry.{Entry}
use personal_finance_public.Domain.Transaction.{
  Transaction, TransactionKind, Date, opening, income, expense, transfer, reversal,
}
use personal_finance_public.Storage.Exec.{Exec}
use personal_finance_public.Storage.Schema.{RecordState, TransactionRecord, EntryRecord}
use personal_finance_public.Storage.Schema.Statements.{
  insert_account, insert_transaction, set_state, set_snapshot, insert_entry, delete_draft_details,
  guarded_update,
}
use personal_finance_public.Storage.World.{Env, World}
use personal_finance_public.Storage.World.Rules.{Accepts, Keeps, Keeps-bind, keeps_rules}
use personal_finance_public.Ledger.Commands.{
  DraftCommand, PostDraft, OpeningCommand, CategoryCommand, TransferCommand,
}
use personal_finance_public.Ledger.Audit.{FinancialAuditSink}
use personal_finance_public.Ledger.Repository.Catalog.{add_account, get_account, get_category}
use personal_finance_public.Ledger.Repository.Transactions.{
  transaction_record_for_update, draft_details_record, add_entries, get_transaction,
  get_draft_details, add_posted, post_existing_draft,
}
use personal_finance_public.Ledger.Handlers.Support.{
  active_account, active_category, except_missing, handle_missing, ensure_equity, required,
  selections_for, validate_selections,
}
use personal_finance_public.Ledger.Handlers.Posting.{store_posted}
use personal_finance_public.Ledger.Handlers.Drafts.{
  entries_from_draft, posted_from_draft, build_from_draft,
}
use personal_finance_public.Ledger.Handlers.Movements.{
  build_opening, build_movement, build_transfer,
}
use personal_finance_public.Ledger.Replay.{SameKeys, SameKeys-preorder}

insert_account-SameKeys : (a : Account) → Accepts SameKeys (insert_account a)
unfolding insert_account
insert_account-SameKeys a = record { accepts = λ db db' h. ground arith }

insert_transaction-SameKeys : (t : TransactionRecord) → Accepts SameKeys (insert_transaction t)
unfolding insert_transaction
insert_transaction-SameKeys t = record { accepts = λ db db' h. ground arith }

set_state-SameKeys :
    (i : String) (s : RecordState) (o : Option ℕ) → Accepts SameKeys (set_state i s o)
unfolding set_state guarded_update
set_state-SameKeys i s o = record { accepts = λ db db' h. ground arith }

set_snapshot-SameKeys :
    (i : String) (k : TransactionKind) (d : Date) (c : Option Date) (t : Option String)
    (s : RecordState)
    → Accepts SameKeys (set_snapshot i k d c t s)
unfolding set_snapshot guarded_update
set_snapshot-SameKeys i k d c t s = record { accepts = λ db db' h. ground arith }

insert_entry-SameKeys : (e : EntryRecord) → Accepts SameKeys (insert_entry e)
unfolding insert_entry
insert_entry-SameKeys e = record { accepts = λ db db' h. ground arith }

delete_draft_details-SameKeys : (i : String) → Accepts SameKeys (delete_draft_details i)
unfolding delete_draft_details
delete_draft_details-SameKeys i = record { accepts = λ db db' h. ground arith }

ruleset same_keys_rules = (
  keeps_rules, SameKeys-preorder, insert_account-SameKeys, insert_transaction-SameKeys,
  set_state-SameKeys, set_snapshot-SameKeys, insert_entry-SameKeys, delete_draft_details-SameKeys,
)

add_entries-SameKeys : (id : String) (es : List Entry) → Keeps SameKeys (add_entries id es)
unfolding add_entries
add_entries-SameKeys id [] = search same_keys_rules
add_entries-SameKeys id (e ∷ es) =
    Keeps-bind SameKeys-preorder _ _ (search same_keys_rules) (λ _. add_entries-SameKeys id es)

pub store_posted-SameKeys :
    (env : Env) (sink : FinancialAuditSink) (b : Bool) (t : Transaction)
    → Keeps SameKeys (store_posted env sink b t)
unfolding store_posted add_posted post_existing_draft transaction_record_for_update
    draft_details_record
store_posted-SameKeys env sink true t = search (same_keys_rules, add_entries-SameKeys) depth 20
store_posted-SameKeys env sink false t = search (same_keys_rules, add_entries-SameKeys) depth 12

active_account-SameKeys : (s i : String) → Keeps SameKeys (active_account s i)
unfolding active_account get_account
active_account-SameKeys s i = search same_keys_rules depth 12

active_category-SameKeys : (s i : String) → Keeps SameKeys (active_category s i)
unfolding active_category get_category
active_category-SameKeys s i = search same_keys_rules depth 12

handle_missing-SameKeys :
    {A : Type 0} (handler : Exec World A) (w w' : World) (r : Result A)
    → Keeps SameKeys handler
    → SameKeys w.db w'.db
    → SameKeys w.db (handle_missing handler (r, w')).1.db
handle_missing-SameKeys handler w w' (ok a) k h = h
handle_missing-SameKeys handler w w' (err entity_not_found) k h =
    SameKeys-preorder.transitive w.db w'.db (handler w').1.db h (k.at w')
handle_missing-SameKeys handler w w' (err e) k h = h

except_missing-SameKeys :
    {A : Type 0} (m handler : Exec World A)
    → Keeps SameKeys m
    → Keeps SameKeys handler
    → Keeps SameKeys (except_missing m handler)
unfolding except_missing
except_missing-SameKeys m handler km kh = record {
  at = λ w. handle_missing-SameKeys handler w (m w).1 (m w).0 kh (km.at w);
}

ensure_equity-SameKeys : (s : String) → Keeps SameKeys (ensure_equity s)
unfolding ensure_equity get_account add_account
ensure_equity-SameKeys s = search (same_keys_rules, except_missing-SameKeys) depth 12

required-SameKeys : (o : Option String) → Keeps SameKeys (required o)
required-SameKeys none = search same_keys_rules
required-SameKeys (some i) = search same_keys_rules

ruleset build_rules = (
  same_keys_rules, active_account-SameKeys, active_category-SameKeys, ensure_equity-SameKeys,
  required-SameKeys,
)

selections_for-SameKeys :
    (k : TransactionKind) (c : DraftCommand) → Keeps SameKeys (selections_for k c)
unfolding selections_for
selections_for-SameKeys income c = search build_rules depth 8
selections_for-SameKeys expense c = search build_rules depth 8
selections_for-SameKeys transfer c = search build_rules depth 8
selections_for-SameKeys opening c = search build_rules
selections_for-SameKeys reversal c = search build_rules

entries_from_draft-SameKeys :
    (e1 e2 : String) (t : TransactionKind) (c : DraftCommand) (a : String) (d : Option Date)
    → Keeps SameKeys (entries_from_draft e1 e2 t c a d)
unfolding entries_from_draft
entries_from_draft-SameKeys e1 e2 opening c a d = search build_rules depth 12
entries_from_draft-SameKeys e1 e2 income c a d = search build_rules depth 8
entries_from_draft-SameKeys e1 e2 expense c a d = search build_rules depth 8
entries_from_draft-SameKeys e1 e2 transfer c a d = search build_rules depth 8
entries_from_draft-SameKeys e1 e2 reversal c a d = search build_rules

module _ (env : Env) where
  pub build_from_draft-SameKeys : (c : PostDraft) → Keeps SameKeys (build_from_draft env c)
  unfolding build_from_draft posted_from_draft validate_selections get_transaction get_draft_details
      transaction_record_for_update draft_details_record
  build_from_draft-SameKeys c =
      search (build_rules, selections_for-SameKeys, entries_from_draft-SameKeys) depth 24

  pub build_opening-SameKeys : (c : OpeningCommand) → Keeps SameKeys (build_opening env c)
  unfolding build_opening
  build_opening-SameKeys c = search build_rules depth 20

  pub build_movement-SameKeys :
      (k : CategoryKind) (c : CategoryCommand) → Keeps SameKeys (build_movement env k c)
  unfolding build_movement
  build_movement-SameKeys k c = search build_rules depth 20

  pub build_transfer-SameKeys : (c : TransferCommand) → Keeps SameKeys (build_transfer env c)
  unfolding build_transfer
  build_transfer-SameKeys c = search build_rules depth 20
