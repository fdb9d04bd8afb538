-- ===== src/Ledger/Projection/Progress.antt =====
-- The projection of state_projection.py as entries are completed.
use personal_finance_public.Base.{
  String, true, ◌≡◌, refl, List, [], ◌∷◌, all, arith, inl, inr, Bool-cases, ◌⊎◌,
}
use personal_finance_public.Domain.Account.{Account}
use personal_finance_public.Domain.Transaction.{
  Transaction, TransactionStatus, posted, reconciled, is_active,
}
use personal_finance_public.Ledger.Projection.{
  mem, reconcilable_entry_ids, by_ids, project_transaction_state,
}

all_grows :
    (c d ids : List String)
    → ((i : String) → mem i c ≡ true → mem i d ≡ true)
    → all (λ j. mem j c) ids ≡ true
    → all (λ j. mem j d) ids ≡ true
all_grows c d [] more h = refl
all_grows c d (i ∷ ids) more h = ground (arith, more i, all_grows c d ids more)

by_ids_grows :
    (s : TransactionStatus) (c d ids : List String)
    → ((i : String) → mem i c ≡ true → mem i d ≡ true)
    → by_ids s ids c ≡ reconciled
    → by_ids s ids d ≡ reconciled
by_ids_grows s c d [] more h = h
by_ids_grows s c d (i ∷ ids) more h = ground (arith, all_grows c d (i ∷ ids) more)

-- A transaction that is projected as reconciled still is when more entries are completed.
pub project_grows :
    (t : Transaction) (accounts : List Account) (completed more : List String)
    → ((i : String) → mem i completed ≡ true → mem i more ≡ true)
    → project_transaction_state t accounts completed ≡ reconciled
    → project_transaction_state t accounts more ≡ reconciled
unfolding project_transaction_state
project_grows t accounts completed more grows h =
    ground (arith, by_ids_grows t.status completed more (reconcilable_entry_ids t accounts) grows)

by_ids_reconciled :
    (completed ids : List String)
    → by_ids posted ids completed ≡ reconciled
    → all (λ j. mem j completed) ids ≡ true
by_ids_reconciled completed [] h = refl
by_ids_reconciled completed (i ∷ ids) h = ground arith

-- A posted transaction is projected as reconciled only if all of its reconcilable entries are
-- completed.
pub project_reconciled :
    (t : Transaction) (accounts : List Account) (completed : List String)
    → t.status ≡ posted
    → project_transaction_state t accounts completed ≡ reconciled
    → all (λ j. mem j completed) (reconcilable_entry_ids t accounts) ≡ true
unfolding project_transaction_state reconcilable_entry_ids
project_reconciled t accounts completed is_posted h =
    by_ids_reconciled completed (reconcilable_entry_ids t accounts) (rw is_posted at h)

-- Drafts and voided transactions stay what they are, and active ones stay active, whatever has been
-- completed.
pub project-is_active :
    (t : Transaction) (accounts : List Account) (completed : List String)
    → (is_active (project_transaction_state t accounts completed) ≡ is_active t.status)
      × ((is_active t.status ≡ true) ⊎ (project_transaction_state t accounts completed ≡ t.status))
unfolding project_transaction_state
project-is_active t accounts completed = elim (Bool-cases (is_active t.status)) [
  | inl active ↦ (rw active (stays (reconcilable_entry_ids t accounts) active), inl active)
  | inr inactive ↦ (rw inactive inactive, inr (rw inactive refl))
]
  where
    stays :
        (ids : List String)
        → is_active t.status ≡ true
        → is_active (by_ids t.status ids completed) ≡ true
    stays [] active = active
    stays (i ∷ ids) active = ground arith
