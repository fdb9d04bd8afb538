-- ===== src/Tests/StateTests.antt =====
-- Projection and reconciliation at concrete values.
use personal_finance_public.Base.{
  All, String, ◌≡◌, ◌≢◌, ◌⊎◌, refl, ◌==◌, arith, true, none, some, [], ◌∷◌, all, ok, err,
  non_zero_difference,
}
use personal_finance_public.Base.Int.{pos, ◌+ℤ◌}
use personal_finance_public.Domain.Entry.{Entry, EntrySide}
use personal_finance_public.Domain.Transaction.{Transaction, TransactionKind, TransactionStatus}
use personal_finance_public.Domain.Transaction.Posting.{posting}
use personal_finance_public.Ledger.Projection.{
  mem, reconcilable_entry_ids, project_transaction_state,
}
use personal_finance_public.Ledger.Projection.Progress.{
  project_grows, project_reconciled, project-is_active,
}
use personal_finance_public.Reconciliation.{
  Reconciliation, ReconciliationStatus, ReconciliationCandidate, from_ledger, selected_effect_cents,
  complete_reconciliation, new_reconciliation,
}
use personal_finance_public.Reconciliation.Balance.{
  IsOffered, new_reconciliation-IsOffered, new_reconciliation-IsValid,
  complete_reconciliation-exact,
}
use personal_finance_public.Reconciliation.Eligibility.{IsCandidate, from_ledger-IsCandidate}
use personal_finance_public.Tests.Sample.{bank}
use personal_finance_public.Domain.Transaction.{is_active}

abbrev paid : Entry
paid = record {
  id = "e0";
  space_id = "home";
  side = EntrySide.debit;
  amount_cents = pos 100;
  account_id = some "bank";
  category_id = none;
}

abbrev earned : Entry
earned = record paid {
  id = "e1";
  side = EntrySide.credit;
  account_id = none;
  category_id = some "work";
}

abbrev salary : Transaction
salary = posting "t" "home" TransactionKind.income 5 (some 7) (some "Nómina") (paid ∷ earned ∷ [])

shown_reconciled :
    project_transaction_state salary (bank ∷ []) ("e0" ∷ []) ≡ TransactionStatus.reconciled
unfolding project_transaction_state reconcilable_entry_ids ◌==◌
shown_reconciled = refl

one_more : (i : String) → mem i ("e0" ∷ []) ≡ true → mem i ("e9" ∷ "e0" ∷ []) ≡ true
one_more i h = ground (arith, h)

project_grows_example :
    project_transaction_state salary (bank ∷ []) ("e9" ∷ "e0" ∷ []) ≡ TransactionStatus.reconciled
project_grows_example =
    project_grows salary (bank ∷ []) ("e0" ∷ []) ("e9" ∷ "e0" ∷ []) one_more shown_reconciled

project_reconciled_example :
    all (λ j. mem j ("e0" ∷ [])) (reconcilable_entry_ids salary (bank ∷ [])) ≡ true
project_reconciled_example = project_reconciled salary (bank ∷ []) ("e0" ∷ []) refl shown_reconciled

project-is_active_example :
    (is_active (project_transaction_state salary (bank ∷ []) ("e0" ∷ [])) ≡ is_active salary.status)
    × ((is_active salary.status ≡ true)
        ⊎ (project_transaction_state salary (bank ∷ []) ("e0" ∷ []) ≡ salary.status))
project-is_active_example = project-is_active salary (bank ∷ []) ("e0" ∷ [])

abbrev candidate : ReconciliationCandidate
candidate = record {
  entry_id = "e0";
  transaction_id = "t";
  space_id = "home";
  account_id = "bank";
  description = some "Nómina";
  kind = TransactionKind.income;
  eligibility_date = 7;
  signed_effect_cents = pos 100;
}

candidate_taken : from_ledger bank salary paid ≡ ok candidate
unfolding from_ledger ◌==◌
candidate_taken = refl

from_ledger-IsCandidate_example : IsCandidate bank salary paid candidate
from_ledger-IsCandidate_example = from_ledger-IsCandidate bank salary paid candidate_taken

abbrev month : Reconciliation
month = record {
  id = "r";
  space_id = "home";
  account_id = "bank";
  cutoff_date = 7;
  observed_balance_cents = pos 350;
  prior_completed_cents = pos 250;
  candidates = candidate ∷ [];
  selection = "e0" ∷ [];
  status = ReconciliationStatus.draft;
}

month_made : new_reconciliation month ≡ ok month
unfolding new_reconciliation ◌==◌
month_made = refl

new_reconciliation-IsOffered_example : (month ≡ month) × All (IsOffered month) ("e0" ∷ [])
new_reconciliation-IsOffered_example = new_reconciliation-IsOffered month month_made

complete_reconciliation-exact_example :
    ((complete_reconciliation month ≡ ok (record month { status = ReconciliationStatus.completed }))
      × (pos 350 ≡ pos 250 +ℤ selected_effect_cents month))
    ⊎ ((complete_reconciliation month ≡ err non_zero_difference)
        × (pos 350 ≢ pos 250 +ℤ selected_effect_cents month))
complete_reconciliation-exact_example =
    complete_reconciliation-exact month (new_reconciliation-IsValid month month_made).0
