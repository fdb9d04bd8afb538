-- ===== src/Ledger/Repository/Catalog.antt =====
-- Accounts and categories.
use personal_finance_public.Base.{
  ⊤, String, Bool, ◌&&◌, ◌||◌, not, Option, none, some, List, [], ◌∷◌, filter, find?, sort_by, ◌==◌,
  text_le, Result, ok, if◌then◌else◌, entity_not_found, duplicate_name,
}
use personal_finance_public.Base.{◌>>=◌ as then_result}
use personal_finance_public.Domain.Account.{Account, Category, is_equity, new_account, new_category}
use personal_finance_public.Storage.Table.{lookup}
use personal_finance_public.Storage.Exec.{Exec, pure, lift, or_raise, ◌>>=◌}
use personal_finance_public.Storage.Schema.{Db, account_keyed, category_keyed}
use personal_finance_public.Storage.Schema.Statements.{
  insert_account, update_account_row, insert_category, update_category_row,
}
use personal_finance_public.Storage.World.{World, query, execute, or_integrity}

-- `WHERE space_id = … AND id = …`, by the primary key.
unfoldable pub account_row : String → String → Db → Option Account
account_row space_id account_id db = elim (lookup account_id db.accounts) [
  | none ↦ none
  | some r ↦ if r.space_id == space_id then some r else none
]

unfoldable pub category_row : String → String → Db → Option Category
category_row space_id category_id db = elim (lookup category_id db.categories) [
  | none ↦ none
  | some r ↦ if r.space_id == space_id then some r else none
]

unfoldable pub add_account : Account → Exec World ⊤
add_account account = or_integrity (execute (insert_account account)) duplicate_name

unfoldable pub get_account : String → String → Exec World Account
get_account space_id account_id = do
  found ← query (account_row space_id account_id)
  r ← or_raise found entity_not_found
  lift (new_account r)

-- Every row of a listing goes through the domain constructor.
unfoldable pub all_accounts : List Account → Result (List Account)
all_accounts [] = ok []
all_accounts (r ∷ rows) =
    then_result (new_account r) λ a. then_result (all_accounts rows) λ rest. ok (a ∷ rest)

unfoldable pub all_categories : List Category → Result (List Category)
all_categories [] = ok []
all_categories (r ∷ rows) =
    then_result (new_category r) λ c. then_result (all_categories rows) λ rest. ok (c ∷ rest)

abbrev pub by_name : (n m i j : String) → Bool
by_name n m i j = if n == m then text_le i j else text_le n m

unfoldable pub accounts_of : String → Bool → Db → List Account
accounts_of space_id include_archived db =
    sort_by (λ a b. by_name a.name b.name a.id b.id)
      (filter
        (λ a.
          a.space_id == space_id
          && (not (is_equity a.kind) && (include_archived || not a.is_archived)))
        db.accounts)

unfoldable pub list_accounts : String → Bool → Exec World (List Account)
list_accounts space_id include_archived = do
  rows ← query (accounts_of space_id include_archived)
  lift (all_accounts rows)

unfoldable pub update_account : Account → Exec World ⊤
update_account account = do
  found ← query (account_row account.space_id account.id)
  r ← or_raise found entity_not_found
  or_integrity
      (execute (
        update_account_row (record r {
          name = account.name;
          is_archived = account.is_archived;
          is_reconcilable = account.is_reconcilable;
        })))
      duplicate_name

unfoldable pub add_category : Category → Exec World ⊤
add_category category = or_integrity (execute (insert_category category)) duplicate_name

unfoldable pub get_category : String → String → Exec World Category
get_category space_id category_id = do
  found ← query (category_row space_id category_id)
  r ← or_raise found entity_not_found
  lift (new_category r)

unfoldable pub find_category_by_name : String → String → Exec World (Option Category)
find_category_by_name space_id name = do
  found ← query (λ db. find? (λ c. c.space_id == space_id && c.name == name) db.categories)
  elim found [ none ↦ pure none | some r ↦ do c ← lift (new_category r); pure (some c) ]

unfoldable pub categories_of : String → Bool → Db → List Category
categories_of space_id include_archived db =
    sort_by (λ a b. by_name a.name b.name a.id b.id)
      (filter (λ c. c.space_id == space_id && (include_archived || not c.is_archived))
        db.categories)

unfoldable pub list_categories : String → Bool → Exec World (List Category)
list_categories space_id include_archived = do
  rows ← query (categories_of space_id include_archived)
  lift (all_categories rows)

unfoldable pub update_category : Category → Exec World ⊤
update_category category = do
  found ← query (category_row category.space_id category.id)
  r ← or_raise found entity_not_found
  or_integrity
      (execute (
        update_category_row
          (record r { name = category.name; is_archived = category.is_archived })))
      duplicate_name
