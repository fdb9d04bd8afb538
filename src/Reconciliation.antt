-- ===== src/Reconciliation.antt =====
-- backend/app/reconciliation/domain/reconciliation.py: eligibility and the exact balance of a
-- reconciliation.
pub mod Balance
pub mod Repository
pub mod Service
pub mod Eligibility
use personal_finance_public.Base.{
  ⊤, String, Bool, true, false, ◌&&◌, ◌||◌, not, is_some, Option, none, some, List, [], ◌∷◌, any,
  find?, filter, map, leb, nat_eq, ◌==◌, ◌=?◌, if◌then◌else◌, Result, ok, err, raise_if, ◌>>=◌,
  ◌>>◌, ineligible_account, ineligible_entry, non_zero_difference,
}
use personal_finance_public.Base.Int.{ℤ, pos, ◌+ℤ◌, ◌-ℤ◌, eq_ℤ, sum}
use personal_finance_public.Domain.Account.{Account, is_equity}
use personal_finance_public.Domain.Entry.{Entry, EntrySide, debit, credit, signed_cents}
use personal_finance_public.Domain.Transaction.{
  Date, Transaction, TransactionKind, TransactionStatus, is_opening, is_draft,
}

pub data ReconciliationStatus : Type 0 where
  draft completed : ReconciliationStatus

pub record ReconciliationCandidate : Type 0 where
  pub entry_id : String
  pub transaction_id : String
  pub space_id : String
  pub account_id : String
  pub description : Option String
  pub kind : TransactionKind
  pub eligibility_date : Date
  pub signed_effect_cents : ℤ

abbrev eq_side : EntrySide → EntrySide → Bool
eq_side debit debit = true
eq_side credit credit = true
eq_side _ _ = false

abbrev eq_option : Option String → Option String → Bool
eq_option none none = true
eq_option (some a) (some b) = a == b
eq_option _ _ = false

-- `==` of the dataclass `Entry`, field by field.
abbrev pub eq_entry : Entry → Entry → Bool
eq_entry a b =
    a.id == b.id
    && (a.space_id == b.space_id
        && (eq_side a.side b.side
            && (eq_ℤ a.amount_cents b.amount_cents
                && (eq_option a.account_id b.account_id && eq_option a.category_id b.category_id))))

-- `eligibility_date`
abbrev pub date_of : TransactionKind → Date → Option Date → Date
date_of TransactionKind.opening economic_date cash_date = economic_date
date_of kind economic_date none = economic_date
date_of kind economic_date (some cash_date) = cash_date

-- `ReconciliationCandidate.from_ledger`
unfoldable pub from_ledger : Account → Transaction → Entry → Result ReconciliationCandidate
from_ledger account transaction entry = do
  raise_if (account.is_archived || (not account.is_reconcilable || is_equity account.kind))
      ineligible_account
  raise_if
      (not (entry.account_id =? account.id)
        || (is_some entry.category_id
            || (not (entry.space_id == account.space_id)
                || (not (transaction.space_id == account.space_id)
                    || (not (any (λ e. eq_entry e entry) transaction.entries)
                        || is_draft transaction.status)))))
      ineligible_entry
  ok (record {
    entry_id = entry.id;
    transaction_id = transaction.id;
    space_id = entry.space_id;
    account_id = account.id;
    description = transaction.description;
    kind = transaction.kind;
    eligibility_date = date_of transaction.kind transaction.economic_date transaction.cash_date;
    signed_effect_cents = signed_cents entry;
  })

abbrev pub is_eligible : ReconciliationCandidate → Date → Bool
is_eligible candidate cutoff_date = leb candidate.eligibility_date cutoff_date

abbrev pub mem : String → List String → Bool
mem x xs = any (λ y. y == x) xs

-- `len(set(ids)) == len(ids)`
abbrev pub distinct : List String → Bool
distinct [] = true
distinct (i ∷ ids) = not (mem i ids) && distinct ids

abbrev no_ids : List String → Bool
no_ids [] = true
no_ids (i ∷ ids) = false

-- `ReconciliationSelection(...)`, whose one field is the identifiers.
unfoldable pub new_selection : List String → Result (List String)
new_selection entry_ids = do
  raise_if (no_ids entry_ids) ineligible_entry
  raise_if (not (distinct entry_ids)) ineligible_entry
  ok entry_ids

pub record Reconciliation : Type 0 where
  pub id : String
  pub space_id : String
  pub account_id : String
  pub cutoff_date : Date
  pub observed_balance_cents : ℤ
  pub prior_completed_cents : ℤ
  pub candidates : List ReconciliationCandidate
  pub selection : List String
  pub status : ReconciliationStatus

-- `candidate_by_id.get(entry_id)`; the identifiers of the candidates are unique by then.
abbrev pub candidate_of : Reconciliation → String → Option ReconciliationCandidate
candidate_of r entry_id = find? (λ c. c.entry_id == entry_id) r.candidates

abbrev pub outside : Reconciliation → Option ReconciliationCandidate → Bool
outside r none = true
outside r (some c) =
    not (c.space_id == r.space_id)
    || (not (c.account_id == r.account_id) || not (is_eligible c r.cutoff_date))

-- `Reconciliation(...)`, with `__post_init__`.
unfoldable pub new_reconciliation : Reconciliation → Result Reconciliation
new_reconciliation r = do
  raise_if (not (distinct (map (λ c. c.entry_id) r.candidates))) ineligible_entry
  raise_if (any (λ entry_id. outside r (candidate_of r entry_id)) r.selection) ineligible_entry
  ok r

-- `Reconciliation.draft`
unfoldable pub draft_reconciliation : Reconciliation → Result Reconciliation
draft_reconciliation r = new_reconciliation (record r { status = draft })

unfoldable pub selected_effect_cents : Reconciliation → ℤ
selected_effect_cents r =
    sum (map (λ c. c.signed_effect_cents) (filter (λ c. mem c.entry_id r.selection) r.candidates))

unfoldable pub checked_balance_cents : Reconciliation → ℤ
checked_balance_cents r = r.prior_completed_cents +ℤ selected_effect_cents r

unfoldable pub difference_cents : Reconciliation → ℤ
difference_cents r = r.observed_balance_cents -ℤ checked_balance_cents r

-- `complete`; `replace` runs `__post_init__` again.
unfoldable pub complete_reconciliation : Reconciliation → Result Reconciliation
complete_reconciliation r = do
  raise_if (not (eq_ℤ (difference_cents r) (pos 0))) non_zero_difference
  new_reconciliation (record r { status = completed })
