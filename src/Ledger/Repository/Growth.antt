-- ===== src/Ledger/Repository/Growth.antt =====
-- The methods of backend/app/ledger/adapters/repositories.py under the relation `Grows`.
use personal_finance_public.Base.{
  Bool, String, ◌≡◌, Option, none, some, true, not, List, [], ◌∷◌, arith, inl, inr, Bool-cases,
  immutable_ledger, entity_not_found,
}
use personal_finance_public.Domain.Account.{Account, Category, new_category}
use personal_finance_public.Domain.Entry.{Entry}
use personal_finance_public.Domain.Transaction.{Transaction}
use personal_finance_public.Storage.Schema.{
  TransactionRecord, DraftDetails, Db, RecordState, voided, transaction_keyed,
}
use personal_finance_public.Storage.Schema.Soundness.{Grows}
use personal_finance_public.Storage.Table.{lookup}
use personal_finance_public.Storage.Schema.Statements.{set_state}
use personal_finance_public.Storage.Schema.Updates.{enters_posted, set_state-Grows}
use personal_finance_public.Storage.Schema.Others.{grows_rules, Grows-preorder}
use personal_finance_public.Storage.Exec.{pure, guard, ◌>>◌, lift, ◌>>=◌}
use personal_finance_public.Storage.World.{Env, World, execute}
use personal_finance_public.Storage.World.Rules.{
  Keeps, Keeps-bind, Keeps-found, execute_at, Preorder, keeps_rules,
}
use personal_finance_public.Ledger.Repository.Catalog.{
  add_account, get_account, list_accounts, update_account, add_category, get_category,
  find_category_by_name, list_categories, update_category,
}
use personal_finance_public.Ledger.Repository.Transactions.{
  transaction_record_for_update, draft_details_record, transaction_record, add_entries, add_draft,
  update_draft, discard_draft, get_transaction, get_draft_details, mark_voided, add_posted,
  transaction_row, is_active_state, post_existing_draft, add_reversal_link,
}

pub ruleset rules = (keeps_rules, grows_rules)

pub add_account-Grows : (a : Account) → Keeps Grows (add_account a)
unfolding add_account
add_account-Grows a = search rules

pub get_account-Grows : (s i : String) → Keeps Grows (get_account s i)
unfolding get_account
get_account-Grows s i = search rules

pub list_accounts-Grows : (s : String) (b : Bool) → Keeps Grows (list_accounts s b)
unfolding list_accounts
list_accounts-Grows s b = search rules

pub update_account-Grows : (a : Account) → Keeps Grows (update_account a)
unfolding update_account
update_account-Grows a = search rules depth 12

pub add_category-Grows : (c : Category) → Keeps Grows (add_category c)
unfolding add_category
add_category-Grows c = search rules

pub get_category-Grows : (s i : String) → Keeps Grows (get_category s i)
unfolding get_category
get_category-Grows s i = search rules

pub list_categories-Grows : (s : String) (b : Bool) → Keeps Grows (list_categories s b)
unfolding list_categories
list_categories-Grows s b = search rules

pub update_category-Grows : (c : Category) → Keeps Grows (update_category c)
unfolding update_category
update_category-Grows c = search rules depth 12

found_category-Grows :
    (o : Option Category)
    → Keeps {A = Option Category} Grows
        (elim o [ none ↦ pure none | some r ↦ do c ← lift (new_category r); pure (some c) ])
found_category-Grows none = search rules
found_category-Grows (some r) = search rules

pub find_category_by_name-Grows : (s n : String) → Keeps Grows (find_category_by_name s n)
unfolding find_category_by_name
find_category_by_name-Grows s n = search (rules, found_category-Grows) depth 8

pub add_entries-Grows : (id : String) (entries : List Entry) → Keeps Grows (add_entries id entries)
unfolding add_entries
add_entries-Grows id [] = search rules
add_entries-Grows id (e ∷ es) =
    Keeps-bind Grows-preorder _ _ (search rules) (λ _. add_entries-Grows id es)

pub record_for_update-Grows : (s i : String) → Keeps Grows (transaction_record_for_update s i)
unfolding transaction_record_for_update
record_for_update-Grows s i = search rules

pub draft_details_record-Grows : (s i : String) → Keeps Grows (draft_details_record s i)
unfolding draft_details_record
draft_details_record-Grows s i = search rules

ruleset transaction_rules =
    (rules, add_entries-Grows, record_for_update-Grows, draft_details_record-Grows)

pub add_draft-Grows : (t : Transaction) (d : DraftDetails) → Keeps Grows (add_draft t d)
unfolding add_draft transaction_record
add_draft-Grows t d = search transaction_rules

pub update_draft-Grows : (t : Transaction) (d : DraftDetails) → Keeps Grows (update_draft t d)
unfolding update_draft
update_draft-Grows t d = search transaction_rules depth 12

pub discard_draft-Grows : (s i : String) → Keeps Grows (discard_draft s i)
unfolding discard_draft
discard_draft-Grows s i = search transaction_rules depth 8

pub get_transaction-Grows : (s i : String) → Keeps Grows (get_transaction s i)
unfolding get_transaction
get_transaction-Grows s i = search transaction_rules depth 8

pub get_draft_details-Grows : (s i : String) → Keeps Grows (get_draft_details s i)
unfolding get_draft_details
get_draft_details-Grows s i = search transaction_rules

pub add_posted-Grows : (env : Env) (t : Transaction) → Keeps Grows (add_posted env t)
unfolding add_posted transaction_record
add_posted-Grows env t = search transaction_rules depth 12

pub post_existing_draft-Grows :
    (env : Env) (t : Transaction) → Keeps Grows (post_existing_draft env t)
unfolding post_existing_draft
post_existing_draft-Grows env t = search transaction_rules depth 20

pub add_reversal_link-Grows :
    (env : Env) (s i j : String) → Keeps Grows (add_reversal_link env s i j)
unfolding add_reversal_link
add_reversal_link-Grows env s i j = search transaction_rules

row-lookup :
    (s i : String) (db : Db) (r : TransactionRecord)
    → transaction_row s i db ≡ some r
    → lookup i db.transactions ≡ some r
unfolding transaction_row
row-lookup s i db r h = ground arith

active-enters : (a : RecordState) → is_active_state a ≡ true → enters_posted a voided ≡ true
active-enters a h = ground arith

void_row-Grows :
    (i : String) (w : World) (r : TransactionRecord)
    → lookup i w.db.transactions ≡ some r
    → Grows w.db
        ((do
          guard (not (is_active_state r.state)) immutable_ledger
          execute (set_state i voided r.posted_at))
          w).1.db
unfolding ◌>>=◌
void_row-Grows i w r found = elim (Bool-cases (is_active_state r.state)) [
  | inl active ↦ rw active (
      execute_at Grows-preorder w (set_state i voided r.posted_at) (λ db' h.
        set_state-Grows i voided r.posted_at w.db db'
          (λ old at. active-enters old.state (ground arith)) h))
  | inr other ↦ rw other (Grows-preorder.reflexive w.db)
]

-- A row that `mark_voided` changes was posted or reconciled.
pub mark_voided-Grows : (s i : String) → Keeps Grows (mark_voided s i)
unfolding mark_voided transaction_record_for_update
mark_voided-Grows s i =
    Keeps-found Grows-preorder (transaction_row s i) entity_not_found _
      (λ w r found. void_row-Grows i w r (row-lookup s i w.db r found))

pub ruleset repository_rules = (
  rules, add_account-Grows, get_account-Grows, list_accounts-Grows, update_account-Grows,
  add_category-Grows, get_category-Grows, find_category_by_name-Grows, list_categories-Grows,
  update_category-Grows, record_for_update-Grows, draft_details_record-Grows, add_draft-Grows,
  update_draft-Grows, discard_draft-Grows, get_transaction-Grows, get_draft_details-Grows,
  mark_voided-Grows, add_posted-Grows, post_existing_draft-Grows, add_reversal_link-Grows,
)
