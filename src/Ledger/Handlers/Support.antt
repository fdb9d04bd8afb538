-- ===== src/Ledger/Handlers/Support.antt =====
-- The service's static helpers: what a draft or a selection must satisfy, and payloads.
use personal_finance_public.Base.{
  ⊤, String, false, Option, none, some, Result, ok, err, entity_not_found, invalid_lifecycle,
  archived_entity,
}
use personal_finance_public.Base.Int.{pos, leb_ℤ}
use personal_finance_public.Base.Text
use personal_finance_public.Domain.Account.{Account, Category, AccountKind, is_equity, new_account}
use personal_finance_public.Domain.Transaction.{
  Date, TransactionKind, opening, income, expense, transfer, reversal,
}
use personal_finance_public.Storage.Json.{JsonValue, null, str, int, dict, field, end}
use personal_finance_public.Storage.Exec.{Exec, pure, raise, lift, guard, ◌>>=◌, ◌>>◌}
use personal_finance_public.Storage.Schema.{DraftDetails}
use personal_finance_public.Storage.World.{Env, World}
use personal_finance_public.Ledger.Commands.{
  DraftCommand, OpeningCommand, CategoryCommand, TransferCommand, PostDraft,
}
use personal_finance_public.Ledger.Repository.Catalog.{get_account, get_category, add_account}

-- `_details`
unfoldable pub details_of : DraftCommand → DraftDetails
details_of c = record {
  amount_cents = c.amount_cents;
  account_id = c.account_id;
  category_id = c.category_id;
  destination_account_id = c.destination_account_id;
  cash_date = c.cash_date;
  replacement_of_transaction_id = none;
}

-- `_validate_draft`
unfoldable pub validate_draft : DraftCommand → Exec World ⊤
validate_draft c = guard (leb_ℤ c.amount_cents (pos 0)) invalid_lifecycle

-- `_active_account`
unfoldable pub active_account : String → String → Exec World Account
active_account space_id account_id = do
  account ← get_account space_id account_id
  guard account.is_archived archived_entity
  guard (is_equity account.kind) invalid_lifecycle
  pure account

-- `_active_category`
unfoldable pub active_category : String → String → Exec World Category
active_category space_id category_id = do
  category ← get_category space_id category_id
  guard category.is_archived archived_entity
  pure category

-- `except LookupError`: of the modelled errors, the one of a missing entity.
abbrev pub handle_missing : {A : Type 0} → Exec World A → Result A × World → Result A × World
handle_missing handler (ok a, w) = (ok a, w)
handle_missing handler (err entity_not_found, w) = handler w
handle_missing handler (err other, w) = (err other, w)

unfoldable pub except_missing : {A : Type 0} → Exec World A → Exec World A → Exec World A
except_missing m handler w = handle_missing handler (m w)

abbrev pub opening_equity_id : String → String
opening_equity_id space_id = Text.append "opening-equity-" space_id

-- `_ensure_equity`
unfoldable pub ensure_equity : String → Exec World Account
ensure_equity space_id = except_missing (get_account space_id (opening_equity_id space_id)) do
  account ← lift (
      new_account (record {
        id = opening_equity_id space_id;
        space_id = space_id;
        name = "Opening equity";
        kind = AccountKind.equity;
        is_archived = false;
        is_reconcilable = false;
      }))
  add_account account
  pure account

-- `if … is None: raise InvalidLifecycleError`
abbrev pub required : Option String → Exec World String
required none = raise invalid_lifecycle
required (some id) = pure id

-- `_validate_selections`, by the kind of the draft.
unfoldable pub selections_for : TransactionKind → DraftCommand → Exec World ⊤
selections_for income c = do
  category_id ← required c.category_id
  _ ← active_category c.space_id category_id
  pure tt
selections_for expense c = do
  category_id ← required c.category_id
  _ ← active_category c.space_id category_id
  pure tt
selections_for transfer c = do
  destination ← required c.destination_account_id
  _ ← active_account c.space_id destination
  pure tt
selections_for opening c = pure tt
selections_for reversal c = pure tt

unfoldable pub validate_selections : DraftCommand → Exec World ⊤
validate_selections c = do
  account_id ← required c.account_id
  _ ← active_account c.space_id account_id
  selections_for c.kind c

abbrev pub opt_date : Env → Option Date → JsonValue
opt_date env none = null
opt_date env (some d) = str (env.isoformat d)

module _ (env : Env) where
  -- `_payload`: every field but the idempotency key.
  unfoldable pub opening_payload : OpeningCommand → JsonValue
  opening_payload c = dict (
      field "space_id" (str c.space_id) (
        field "account_id" (str c.account_id) (
          field "amount_cents" (int c.amount_cents) (
            field "economic_date" (str (env.isoformat c.economic_date))
              (field "description" (str c.description) end)))))

  unfoldable pub category_payload : CategoryCommand → JsonValue
  category_payload c = dict (
      field "space_id" (str c.space_id) (
        field "account_id" (str c.account_id) (
          field "category_id" (str c.category_id) (
            field "amount_cents" (int c.amount_cents) (
              field "economic_date" (str (env.isoformat c.economic_date)) (
                field "cash_date" (opt_date env c.cash_date)
                  (field "description" (str c.description) end)))))))

  unfoldable pub transfer_payload : TransferCommand → JsonValue
  transfer_payload c = dict (
      field "space_id" (str c.space_id) (
        field "source_account_id" (str c.source_account_id) (
          field "destination_account_id" (str c.destination_account_id) (
            field "amount_cents" (int c.amount_cents) (
              field "economic_date" (str (env.isoformat c.economic_date)) (
                field "cash_date" (opt_date env c.cash_date)
                  (field "description" (str c.description) end)))))))

  unfoldable pub post_draft_payload : PostDraft → JsonValue
  post_draft_payload c = dict (
      field "transaction_id" (str c.transaction_id)
        (field "cash_date" (opt_date env c.cash_date) end))
