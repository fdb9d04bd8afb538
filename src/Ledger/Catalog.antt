-- ===== src/Ledger/Catalog.antt =====
-- backend/app/ledger/application/catalog.py: `CatalogService`.
use personal_finance_public.Base.{
  String, Bool, false, Option, none, some, List, if◌then◌else◌, invalid_lifecycle,
}
use personal_finance_public.Domain.Account.{
  Account, Category, CategoryKind, income, expense, is_equity, new_account, new_category, rename,
  archive, unarchive, rename_category, archive_category, unarchive_category,
}
use personal_finance_public.Storage.Exec.{Exec, pure, lift, guard, ◌>>=◌, ◌>>◌}
use personal_finance_public.Storage.World.{Env, World, committed, returned, uuid4, unit_of_work}
use personal_finance_public.Ledger.Commands.{CreateAccount, CreateCategory}
use personal_finance_public.Ledger.Repository.Catalog.{
  add_account, get_account, list_accounts, update_account, add_category, get_category,
  find_category_by_name, list_categories, update_category,
}

module _ (env : Env) where
  unfoldable pub create_account : CreateAccount → Exec World Account
  create_account command = do
    guard (is_equity command.kind) invalid_lifecycle
    id ← uuid4 env
    account ← lift (
        new_account (record {
          id = id;
          space_id = command.space_id;
          name = command.name;
          kind = command.kind;
          is_archived = false;
          is_reconcilable = command.is_reconcilable;
        }))
    unit_of_work do add_account account; pure (committed account)

  -- `Category(uuid4().hex, space_id, name, kind)`
  unfoldable pub category_made : String → String → CategoryKind → Exec World Category
  category_made space_id name kind = do
    id ← uuid4 env
    lift (
        new_category
          (record { id = id; space_id = space_id; name = name; kind = kind; is_archived = false }))

  unfoldable pub create_category : CreateCategory → Exec World Category
  create_category command = do
    category ← category_made command.space_id command.name command.kind
    unit_of_work do add_category category; pure (committed category)

  unfoldable pub starter_missing :
      Option Category → String → String → CategoryKind → Exec World Category
  starter_missing (some existing) space_id name kind = pure existing
  starter_missing none space_id name kind = do
    category ← category_made space_id name kind
    add_category category
    pure category

  -- One turn of the loop over the starters.
  unfoldable pub ensure_starter : String → String → CategoryKind → Exec World Category
  ensure_starter space_id name kind = do
    existing ← find_category_by_name space_id name
    starter_missing existing space_id name kind

  unfoldable pub ensure_starter_categories : String → Exec World (Category × Category)
  ensure_starter_categories space_id = unit_of_work do
    first ← ensure_starter space_id "Other income" income
    second ← ensure_starter space_id "Other expense" expense
    pure (committed (first, second))

unfoldable pub rename_account : String → String → String → Exec World Account
rename_account space_id account_id name = unit_of_work do
  current ← get_account space_id account_id
  account ← lift (rename current name)
  update_account account
  pure (committed account)

unfoldable pub set_account_archived : String → String → Bool → Exec World Account
set_account_archived space_id account_id is_archived = unit_of_work do
  current ← get_account space_id account_id
  account ← lift (if is_archived then archive current else unarchive current)
  update_account account
  pure (committed account)

unfoldable pub rename_category_handler : String → String → String → Exec World Category
rename_category_handler space_id category_id name = unit_of_work do
  current ← get_category space_id category_id
  category ← lift (rename_category current name)
  update_category category
  pure (committed category)

unfoldable pub set_category_archived : String → String → Bool → Exec World Category
set_category_archived space_id category_id is_archived = unit_of_work do
  current ← get_category space_id category_id
  category ← lift (if is_archived then archive_category current else unarchive_category current)
  update_category category
  pure (committed category)

unfoldable pub list_accounts_handler : String → Bool → Exec World (List Account)
list_accounts_handler space_id include_archived =
    unit_of_work do accounts ← list_accounts space_id include_archived; pure (returned accounts)

unfoldable pub list_categories_handler : String → Bool → Exec World (List Category)
list_categories_handler space_id include_archived =
    unit_of_work
      do categories ← list_categories space_id include_archived; pure (returned categories)
