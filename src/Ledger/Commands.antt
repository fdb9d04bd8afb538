-- ===== src/Ledger/Commands.antt =====
-- backend/app/ledger/application/commands.py: the commands and their result.
use personal_finance_public.Base.{String, Bool, Option}
use personal_finance_public.Base.Int.{ℤ}
use personal_finance_public.Domain.Account.{AccountKind, CategoryKind}
use personal_finance_public.Domain.Transaction.{Date, TransactionKind}
use personal_finance_public.Storage.Json.{JsonValue, str, bool, dict, field, end, opt_str}

pub record CreateAccount : Type 0 where
  pub space_id : String
  pub name : String
  pub kind : AccountKind
  pub is_reconcilable : Bool

pub record CreateCategory : Type 0 where
  pub space_id : String
  pub name : String
  pub kind : CategoryKind

pub record DraftCommand : Type 0 where
  pub space_id : String
  pub kind : TransactionKind
  pub economic_date : Date
  pub description : String
  pub amount_cents : ℤ
  pub account_id : Option String
  pub category_id : Option String
  pub destination_account_id : Option String
  pub cash_date : Option Date

pub record PostDraft : Type 0 where
  pub space_id : String
  pub transaction_id : String
  pub idempotency_key : String
  pub cash_date : Option Date

pub record OpeningCommand : Type 0 where
  pub space_id : String
  pub account_id : String
  pub amount_cents : ℤ
  pub economic_date : Date
  pub description : String
  pub idempotency_key : String

-- `IncomeCommand` and `ExpenseCommand` have the same fields.
pub record CategoryCommand : Type 0 where
  pub space_id : String
  pub account_id : String
  pub category_id : String
  pub amount_cents : ℤ
  pub economic_date : Date
  pub cash_date : Option Date
  pub description : String
  pub idempotency_key : String

pub record TransferCommand : Type 0 where
  pub space_id : String
  pub source_account_id : String
  pub destination_account_id : String
  pub amount_cents : ℤ
  pub economic_date : Date
  pub cash_date : Option Date
  pub description : String
  pub idempotency_key : String

pub record ReverseCommand : Type 0 where
  pub space_id : String
  pub original_transaction_id : String
  pub economic_date : Option Date
  pub cash_date : Option Date
  pub idempotency_key : String
  pub replacement : Option DraftCommand

pub record CommandResult : Type 0 where
  pub transaction_id : String
  pub status : String
  pub replayed : Bool
  pub replacement_transaction_id : Option String

unfoldable pub as_json : CommandResult → JsonValue
as_json r = dict (
    field "transaction_id" (str r.transaction_id) (
      field "status" (str r.status) (
        field "replayed" (bool r.replayed)
          (field "replacement_transaction_id" (opt_str r.replacement_transaction_id) end))))
