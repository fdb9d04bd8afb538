-- ===== src/Tests/DomainTests.antt =====
-- The domain's properties at concrete values.
use personal_finance_public.Base.{
  String, ℕ, ◌≤◌, ◌≡◌, refl, ◌==◌, arith, Bool, true, Option, none, some, List, [], ◌∷◌, length, ok,
  is_some,
}
use personal_finance_public.Base.Int.{pos, sum, ◌+ℤ◌, neg, ◌≤ℤ◌}
use personal_finance_public.Base.Text
use personal_finance_public.Domain.Money
use personal_finance_public.Domain.Account.{new_account, validated_name}
use personal_finance_public.Domain.Account.Validity.{IsValid, new_account-IsValid}
use personal_finance_public.Domain.Description.{normalize_required_description}
use personal_finance_public.Domain.Description.Bounds.{
  IsCanonical, normalize-IsCanonical, normalize_canonical,
}
use personal_finance_public.Domain.Entry
use personal_finance_public.Domain.Entry.{Entry, EntrySide, for_account, reversed, effect}
use personal_finance_public.Domain.Recipes.{transfer_entries, reversal_entries, reversed_from}
use personal_finance_public.Domain.Recipes.Balance.{IsRecipe, IsRecipe-IsPosting}
use personal_finance_public.Domain.Recipes.Balance
use personal_finance_public.Domain.Recipes.Reversal.{on_target, mirror, reversal_entries_undo}
use personal_finance_public.Domain.Transaction.{
  Transaction, TransactionKind, TransactionStatus, new_posted, validate_posting, reconcile, void,
}
use personal_finance_public.Domain.Transaction.Posting.{
  IsPosting, cash_date_fits, posting, new_posted_sound, new_posted_complete,
}
use personal_finance_public.Domain.Transaction.Lifecycle.{
  Step, by_reconcile, by_void, Reach, here, next, rank, Keeps, SamePosted, Reach-Keeps,
  Reach-SamePosted, voided_terminal,
}
use personal_finance_public.Tests.Sample.{bank}

abbrev two : List Entry
two =
    record {
      id = "e0";
      space_id = "home";
      side = EntrySide.debit;
      amount_cents = pos 100;
      account_id = some "b";
      category_id = none;
    }
    ∷ record {
      id = "e1";
      space_id = "home";
      side = EntrySide.credit;
      amount_cents = pos 100;
      account_id = some "a";
      category_id = none;
    }
    ∷ []

transfer_made : transfer_entries "e0" "e1" "home" "a" "b" (pos 100) ≡ ok two
unfolding transfer_entries for_account Entry.new Money.positive Money.new ◌==◌
transfer_made = refl

IsRecipe-IsPosting_example : (pos 1 ≤ℤ pos 100) × IsPosting "home" two
IsRecipe-IsPosting_example =
    IsRecipe-IsPosting {space_id = "home"} {amount = pos 100} {entries = two}
      (Balance.transfer "e0" "e1" "a" "b" transfer_made)

two-IsPosting : IsPosting "home" two
unfolding ◌==◌ sum ◌+ℤ◌ neg
two-IsPosting = record { several = ground arith; balanced = refl; owned = refl }

abbrev prefixed : ℕ → String
prefixed n = "r"

abbrev of_bank : Option String → Option String → Bool
of_bank a c = is_some a

reversal_made : reversal_entries prefixed two ≡ ok (mirror prefixed 0 two)
unfolding reversal_entries reversed_from reversed Entry.new Money.positive Money.new ◌==◌
reversal_made = refl

reversal_entries_undo_example :
    IsPosting "home" (mirror prefixed 0 two)
    × (length (mirror prefixed 0 two) ≡ length two)
    × (effect (on_target of_bank) (mirror prefixed 0 two) ≡ neg (effect (on_target of_bank) two))
reversal_entries_undo_example =
    reversal_entries_undo prefixed of_bank "home" two two-IsPosting reversal_made

abbrev rent : Transaction
rent = posting "t" "home" TransactionKind.transfer 1 (some 1) (some "Renta") two

rent_posted : new_posted "t" "home" TransactionKind.transfer 1 (some 1) (some "Renta") two ≡ ok rent
unfolding new_posted validate_posting ◌==◌ sum ◌+ℤ◌ neg
rent_posted = refl

new_posted_sound_example :
    IsPosting "home" two × (cash_date_fits TransactionKind.transfer (some 1) ≡ true) × (rent ≡ rent)
new_posted_sound_example =
    new_posted_sound "t" "home" TransactionKind.transfer 1 (some 1) (some "Renta") two rent_posted

new_posted_complete_example :
    new_posted "t" "home" TransactionKind.transfer 1 (some 1) (some "Renta") two ≡ ok rent
new_posted_complete_example =
    new_posted_complete "t" "home" TransactionKind.transfer 1 (some 1) (some "Renta") two
      two-IsPosting refl

abbrev rent_reconciled : Transaction
rent_reconciled = record rent { status = TransactionStatus.reconciled }

abbrev rent_voided : Transaction
rent_voided = record rent { status = TransactionStatus.voided }

reconciled-Step : Step rent rent_reconciled
unfolding reconcile
reconciled-Step = by_reconcile refl

voided-Step : Step rent_reconciled rent_voided
unfolding void
voided-Step = by_void refl

reached : Reach rent rent_voided
reached = next (next here reconciled-Step) voided-Step

Reach-Keeps_example : Keeps rent rent_voided
Reach-Keeps_example = Reach-Keeps reached

Reach-SamePosted_example : SamePosted rent rent_voided × (1 ≤ rank TransactionStatus.voided)
Reach-SamePosted_example = Reach-SamePosted (ground arith) reached

voided_terminal_example : ¬ Step rent_voided rent
voided_terminal_example = voided_terminal refl

normalized : normalize_required_description (some "  Renta ") ≡ ok "Renta"
unfolding normalize_required_description Text.strip Text.lstrip Text.rstrip Text.is_space
normalized = refl

normalize-IsCanonical_example : IsCanonical "Renta"
normalize-IsCanonical_example = normalize-IsCanonical (some "  Renta ") normalized

normalize_canonical_example : normalize_required_description (some "Renta") ≡ ok "Renta"
normalize_canonical_example =
    normalize_canonical "Renta" (normalize-IsCanonical (some "  Renta ") normalized)

bank_made : new_account (record bank { name = " Bank " }) ≡ ok bank
unfolding new_account validated_name Text.strip Text.lstrip Text.rstrip Text.is_space
bank_made = refl

new_account-IsValid_example : IsValid bank
new_account-IsValid_example = new_account-IsValid (record bank { name = " Bank " }) bank_made
