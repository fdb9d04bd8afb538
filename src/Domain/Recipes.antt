-- ===== src/Domain/Recipes.antt =====
-- backend/app/ledger/domain/posting_recipes.py: the closed set of postings. `_entry_id()` draws a
-- random identifier; the two that a recipe draws are its first arguments.
pub mod Balance
pub mod Reversal
use personal_finance_public.Base.{
  String, ℕ, ◌+◌, ltb, length, List, [], ◌∷◌, ◌==◌, Result, ok, err, raise_if, ◌>>=◌, ◌>>◌,
  invalid_lifecycle,
}
use personal_finance_public.Base.Int.{ℤ}
use personal_finance_public.Domain.Money
use personal_finance_public.Domain.Account.{AccountKind, asset, liability, equity}
use personal_finance_public.Domain.Entry.{Entry, debit, credit, for_account, for_category, reversed}

-- The tuple of two entries, each of which may be refused.
abbrev both : Result Entry → Result Entry → Result (List Entry)
both first second = do a ← first; b ← second; ok (a ∷ b ∷ [])

unfoldable pub opening_entries :
    String → String → String → String → AccountKind → String → ℤ → Result (List Entry)
unfolding for_account
opening_entries first_id second_id space_id account_id asset equity_account_id amount_cents = do
  _ ← Money.positive amount_cents
  both (for_account first_id space_id account_id debit amount_cents)
      (for_account second_id space_id equity_account_id credit amount_cents)
opening_entries first_id second_id space_id account_id liability equity_account_id amount_cents = do
  _ ← Money.positive amount_cents
  both (for_account first_id space_id equity_account_id debit amount_cents)
      (for_account second_id space_id account_id credit amount_cents)
opening_entries first_id second_id space_id account_id equity equity_account_id amount_cents = do
  _ ← Money.positive amount_cents
  err invalid_lifecycle

unfoldable pub income_entries : String → String → String → String → String → ℤ → Result (List Entry)
unfolding for_account for_category
income_entries first_id second_id space_id account_id category_id amount_cents = do
  _ ← Money.positive amount_cents
  both (for_account first_id space_id account_id debit amount_cents)
      (for_category second_id space_id category_id credit amount_cents)

unfoldable pub expense_entries :
    String → String → String → String → String → ℤ → Result (List Entry)
unfolding for_account for_category
expense_entries first_id second_id space_id account_id category_id amount_cents = do
  _ ← Money.positive amount_cents
  both (for_category first_id space_id category_id debit amount_cents)
      (for_account second_id space_id account_id credit amount_cents)

unfoldable pub transfer_entries :
    String → String → String → String → String → ℤ → Result (List Entry)
unfolding for_account
transfer_entries first_id second_id space_id source_account_id destination_account_id amount_cents =
    do
      _ ← Money.positive amount_cents
      raise_if (source_account_id == destination_account_id) invalid_lifecycle
      both (for_account first_id space_id destination_account_id debit amount_cents)
          (for_account second_id space_id source_account_id credit amount_cents)

-- `tuple(entry.reversed(f"{prefix}-{index}") for index, entry in enumerate(original))`, from an
-- index on; `entry_id` spells the identifier of an index.
unfoldable pub reversed_from : (ℕ → String) → ℕ → List Entry → Result (List Entry)
reversed_from entry_id index [] = ok []
reversed_from entry_id index (entry ∷ rest) = do
  first ← reversed entry (entry_id index)
  others ← reversed_from entry_id (index + 1) rest
  ok (first ∷ others)

unfoldable pub reversal_entries : (ℕ → String) → List Entry → Result (List Entry)
reversal_entries entry_id original = do
  raise_if (ltb (length original) 2) invalid_lifecycle
  reversed_from entry_id 0 original
