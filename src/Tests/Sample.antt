-- ===== src/Tests/Sample.antt =====
-- A household with two accounts, an environment and a sink that records each outcome.
use personal_finance_public.Base.{
  String, true, false, Option, none, some, [], ◌∷◌, ◌==◌, if◌then◌else◌,
}
use personal_finance_public.Base.Int.{pos}
use personal_finance_public.Base.Text
use personal_finance_public.Domain.Account.{Account, AccountKind, Category, CategoryKind}
use personal_finance_public.Storage.CanonicalJson.{decimal, canonical_json}
use personal_finance_public.Storage.Json.{JsonValue, str, dict, field, end}
use personal_finance_public.Domain.Entry.{EntrySide}
use personal_finance_public.Domain.Transaction.{TransactionKind}
use personal_finance_public.Storage.Schema.{
  fresh, SpaceRecord, AuditEventRecord, TransactionRecord, EntryRecord, RecordState,
}
use personal_finance_public.Storage.Schema.Statements.{insert_audit_event}
use personal_finance_public.Storage.World.{Env, World, execute}
use personal_finance_public.Storage.World.Rules.{Keeps-execute}
use personal_finance_public.Ledger.Audit.{
  Outcome, success, failure, FinancialAuditSink, AuditOnly-preorder, insert_audit_event-AuditOnly,
}
use personal_finance_public.Ledger.Commands.{TransferCommand, CommandResult}

-- Reads one text.
abbrev loads : String → Option JsonValue
loads text =
    if text == "{\"operation_kind\":\"TRANSFER\"}"
    then some (dict (field "operation_kind" (str "TRANSFER") end))
    else none

abbrev pub env : Env
env = record {
  uuid4_hex = λ n. Text.append "id" (decimal n);
  now = λ n. n;
  today = λ n. 739000;
  isoformat = λ d. decimal d;
  sha256_hexdigest = λ text. "0123456789abcdef0123456789abcdef0123456789abcdef0123456789abcdef";
  json_dumps = canonical_json;
  json_loads = loads;
}

abbrev outcome_text : Outcome → String
outcome_text success = "SUCCESS"
outcome_text failure = "FAILURE"

abbrev event : String → Outcome → String → Option String → String → AuditEventRecord
event action outcome space_id transaction_id correlation_id = record {
  id = Text.append action (Text.append correlation_id (outcome_text outcome));
  space_id = some space_id;
  occurred_at = 0;
  action = action;
  outcome = outcome_text outcome;
  actor_id = none;
  entity_type = some "transaction";
  entity_id = transaction_id;
  correlation_id = correlation_id;
  details_json = none;
}

abbrev pub sink : FinancialAuditSink
sink = record {
  record_outcome = λ a o s t c. execute (insert_audit_event (event a o s t c));
  audit_only = λ a o s t c.
      Keeps-execute AuditOnly-preorder _ (insert_audit_event-AuditOnly (event a o s t c));
}

abbrev pub bank : Account
bank = record {
  id = "bank";
  space_id = "home";
  name = "Bank";
  kind = AccountKind.asset;
  is_archived = false;
  is_reconcilable = true;
}

abbrev pub savings : Account
savings = record bank { id = "savings"; name = "Savings" }

abbrev pub food : Category
food = record {
  id = "food";
  space_id = "home";
  name = "Food";
  kind = CategoryKind.expense;
  is_archived = false;
}

abbrev pub home : SpaceRecord
home = record { id = "home"; owner_user_id = "me"; name = "Home"; created_at = 0 }

abbrev pub start : World
start = record {
  db = record fresh { spaces = home ∷ []; accounts = savings ∷ bank ∷ []; categories = food ∷ [] };
  calls = 0;
}

abbrev pub to_savings : TransferCommand
to_savings = record {
  space_id = "home";
  source_account_id = "bank";
  destination_account_id = "savings";
  amount_cents = pos 2500;
  economic_date = 738000;
  cash_date = none;
  description = " Ahorro ";
  idempotency_key = "key-1";
}

abbrev pub moved : CommandResult
moved = record {
  transaction_id = "id1";
  status = "POSTED";
  replayed = false;
  replacement_transaction_id = none;
}

abbrev pub reversed_row : TransactionRecord
reversed_row = record {
  id = "old";
  space_id = "home";
  kind = TransactionKind.transfer;
  state = RecordState.posted;
  economic_date = 737000;
  cash_date = some 737000;
  description = some "Renta";
  posted_at = some 1;
}

abbrev pub side_of : String → EntrySide → String → EntryRecord
side_of id side account_id = record {
  transaction_id = "old";
  entry = record {
    id = id;
    space_id = "home";
    side = side;
    amount_cents = pos 100;
    account_id = some account_id;
    category_id = none;
  };
}

abbrev pub with_history : World
with_history = record start {
  db = record start.db {
    transactions = reversed_row ∷ [];
    entries = side_of "e1" EntrySide.debit "bank" ∷ side_of "e2" EntrySide.credit "savings" ∷ [];
  };
}
