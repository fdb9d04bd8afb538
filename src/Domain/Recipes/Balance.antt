-- ===== src/Domain/Recipes/Balance.antt =====
-- The four recipes of backend/app/ledger/domain/posting_recipes.py as postings.
use personal_finance_public.Base.{String, ◌≡◌, List, arith, ==_refl, ok}
use personal_finance_public.Base.Int.{ℤ, pos, ◌+ℤ◌, neg, ◌≤ℤ◌, sum, int_laws}
use personal_finance_public.Domain.Money
use personal_finance_public.Domain.Account.{AccountKind, asset, liability, equity}
use personal_finance_public.Domain.Entry.{Entry}
use personal_finance_public.Domain.Transaction.Posting.{IsPosting}
use personal_finance_public.Domain.Recipes.{
  opening_entries, income_entries, expense_entries, transfer_entries,
}

-- The entries that a command of this amount may post in a space.
pub data IsRecipe (space_id : String) (amount : ℤ) (entries : List Entry) : Type 0 where
  opening :
      (a b account_id equity_account_id : String) (kind : AccountKind)
      → opening_entries a b space_id account_id kind equity_account_id amount ≡ ok entries
      → IsRecipe space_id amount entries
  income :
      (a b account_id category_id : String)
      → income_entries a b space_id account_id category_id amount ≡ ok entries
      → IsRecipe space_id amount entries
  expense :
      (a b account_id category_id : String)
      → expense_entries a b space_id account_id category_id amount ≡ ok entries
      → IsRecipe space_id amount entries
  transfer :
      (a b source_account_id destination_account_id : String)
      → transfer_entries a b space_id source_account_id destination_account_id amount ≡ ok entries
      → IsRecipe space_id amount entries

-- A debit and a credit of the same amount sum to zero, in either order.
debit-credit : (a : ℤ) → a +ℤ (neg a +ℤ pos 0) ≡ pos 0
debit-credit a = omega int_laws

-- What a recipe that succeeds has done.
abbrev Fine : String → ℤ → List Entry → Type 0
Fine space_id amount entries = (pos 1 ≤ℤ amount) × IsPosting space_id entries

module _ (space_id : String) (amount : ℤ) (entries : List Entry) where
  income-IsPosting :
      (a b account_id category_id : String)
      → income_entries a b space_id account_id category_id amount ≡ ok entries
      → Fine space_id amount entries
  unfolding income_entries sum Money.positive
  income-IsPosting a b account_id category_id h = (
    ground (arith, ==_refl Money.eur),
    record {
      several = ground arith;
      balanced = ground (arith, debit-credit amount);
      owned = ground (arith, ==_refl space_id);
    },
  )

  expense-IsPosting :
      (a b account_id category_id : String)
      → expense_entries a b space_id account_id category_id amount ≡ ok entries
      → Fine space_id amount entries
  unfolding expense_entries sum Money.positive
  expense-IsPosting a b account_id category_id h = (
    ground (arith, ==_refl Money.eur),
    record {
      several = ground arith;
      balanced = ground (arith, debit-credit amount);
      owned = ground (arith, ==_refl space_id);
    },
  )

  transfer-IsPosting :
      (a b source_account_id destination_account_id : String)
      → transfer_entries a b space_id source_account_id destination_account_id amount ≡ ok entries
      → Fine space_id amount entries
  unfolding transfer_entries sum Money.positive
  transfer-IsPosting a b source_account_id destination_account_id h = (
    ground (arith, ==_refl Money.eur),
    record {
      several = ground arith;
      balanced = ground (arith, debit-credit amount);
      owned = ground (arith, ==_refl space_id);
    },
  )

  opening-IsPosting :
      (a b account_id equity_account_id : String) (kind : AccountKind)
      → opening_entries a b space_id account_id kind equity_account_id amount ≡ ok entries
      → Fine space_id amount entries
  unfolding opening_entries sum Money.positive
  opening-IsPosting a b account_id equity_account_id asset h = (
    ground (arith, ==_refl Money.eur),
    record {
      several = ground arith;
      balanced = ground (arith, debit-credit amount);
      owned = ground (arith, ==_refl space_id);
    },
  )
  opening-IsPosting a b account_id equity_account_id liability h = (
    ground (arith, ==_refl Money.eur),
    record {
      several = ground arith;
      balanced = ground (arith, debit-credit amount);
      owned = ground (arith, ==_refl space_id);
    },
  )
  opening-IsPosting a b account_id equity_account_id equity h = ground arith

-- A recipe succeeds only on a positive amount, and its entries form a posting of the space.
pub IsRecipe-IsPosting :
    {space_id : String} {amount : ℤ} {entries : List Entry}
    → IsRecipe space_id amount entries
    → (pos 1 ≤ℤ amount) × IsPosting space_id entries
IsRecipe-IsPosting {space_id} {amount} {entries} (opening a b i j kind h) =
    opening-IsPosting space_id amount entries a b i j kind h
IsRecipe-IsPosting {space_id} {amount} {entries} (income a b i j h) =
    income-IsPosting space_id amount entries a b i j h
IsRecipe-IsPosting {space_id} {amount} {entries} (expense a b i j h) =
    expense-IsPosting space_id amount entries a b i j h
IsRecipe-IsPosting {space_id} {amount} {entries} (transfer a b i j h) =
    transfer-IsPosting space_id amount entries a b i j h
