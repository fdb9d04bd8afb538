-- ===== src/Domain/Recipes/Reversal.antt =====
-- Lemmas on `reversal_entries` of backend/app/ledger/domain/posting_recipes.py.
use personal_finance_public.Base.{
  String, ℕ, suc, ◌+◌, sym, ◌≡◌, refl, ap, ◌∙◌, Option, Bool, true, not, ◌||◌, List, [], ◌∷◌, any,
  length, ◌∙◌, filter, arith, ◌==◌, ok, Result-cases, Bool-cases, inl, inr,
}
use personal_finance_public.Base.Int.{ℤ, pos, ◌+ℤ◌, neg, sum, int_laws}
use personal_finance_public.Domain.Entry.{
  Entry, EntrySide, debit, credit, signed, opposite, reversed, effect,
}
use personal_finance_public.Domain.Transaction.Posting.{IsPosting}
use personal_finance_public.Domain.Recipes.{reversed_from, reversal_entries}

signed-opposite :
    (side : EntrySide) (cents : ℤ) → signed (opposite side) cents ≡ neg (signed side cents)
signed-opposite debit cents = refl
signed-opposite credit cents = omega int_laws

-- A test on what an entry moves, and not on its identifier or side.
abbrev pub on_target : (Option String → Option String → Bool) → Entry → Bool
on_target p e = p e.account_id e.category_id

neg-+ℤ : (a b : ℤ) → neg a +ℤ neg b ≡ neg (a +ℤ b)
neg-+ℤ a b = omega int_laws

neg-zero : neg (pos 0) ≡ pos 0
neg-zero = omega int_laws

module _ (entry_id : ℕ → String) where
  -- What a reversal is meant to post: every entry on the other side, under a new identifier.
  abbrev pub mirror : ℕ → List Entry → List Entry
  mirror index [] = []
  mirror index (e ∷ es) =
      record e { id = entry_id index; side = opposite e.side } ∷ mirror (index + 1) es

  pub reversed_from-mirror :
      (index : ℕ) (original : List Entry) {made : List Entry}
      → reversed_from entry_id index original ≡ ok made
      → made ≡ mirror index original
  unfolding reversed_from reversed
  reversed_from-mirror index [] h = ground arith
  reversed_from-mirror index (e ∷ es) h =
      elim (Result-cases (reversed_from entry_id (index + 1) es)) [
        | inl (others, rest) ↦ ground (arith, reversed_from-mirror (index + 1) es rest)
        | inr (error, failed) ↦ ground arith
      ]

  pub length-mirror : (index : ℕ) (es : List Entry) → length (mirror index es) ≡ length es
  length-mirror index [] = refl
  length-mirror index (e ∷ es) = ap suc (length-mirror (index + 1) es)

  pub effect-mirror :
      (p : Option String → Option String → Bool) (index : ℕ) (es : List Entry)
      → effect (on_target p) (mirror index es) ≡ neg (effect (on_target p) es)
  unfolding sum
  effect-mirror p index [] = sym neg-zero
  effect-mirror p index (e ∷ es) = elim (Bool-cases (p e.account_id e.category_id)) [
    | inl hit ↦ rw (hit, effect-mirror p (index + 1) es, signed-opposite, neg-+ℤ)
    | inr miss ↦ rw miss (effect-mirror p (index + 1) es)
  ]

-- The whole posting: as many entries, in the same space, that balance as the original does.
owned-mirror :
    (entry_id : ℕ → String) (space_id : String) (index : ℕ) (es : List Entry)
    → any (λ e. not (e.space_id == space_id)) (mirror entry_id index es)
      ≡ any (λ e. not (e.space_id == space_id)) es
owned-mirror entry_id space_id index [] = refl
owned-mirror entry_id space_id index (e ∷ es) =
    ap (λ b. not (e.space_id == space_id) || b) (owned-mirror entry_id space_id (index + 1) es)

filter_all : (es : List Entry) → filter (on_target (λ a c. true)) es ≡ es
filter_all [] = refl
filter_all (e ∷ es) = ap (λ rest. e ∷ rest) (filter_all es)

pub mirror-IsPosting :
    (entry_id : ℕ → String) (space_id : String) (index : ℕ) (es : List Entry)
    → IsPosting space_id es
    → IsPosting space_id (mirror entry_id index es)
mirror-IsPosting entry_id space_id index es h = record {
  several = rw length-mirror h.several;
  balanced =
      (rw (filter_all (mirror entry_id index es), filter_all es) at
        (effect-mirror entry_id (λ a c. true) index es))
      ∙ rw h.balanced neg-zero;
  owned = owned-mirror entry_id space_id index es ∙ h.owned;
}

-- A reversal has the entries of its original on the other side: as many, of the same space, and
-- with the opposite effect on every choice of accounts and categories. So it balances too.
pub reversal_entries_undo :
    (entry_id : ℕ → String) (p : Option String → Option String → Bool) (space_id : String)
    (original : List Entry) {made : List Entry}
    → IsPosting space_id original
    → reversal_entries entry_id original ≡ ok made
    → IsPosting space_id made
      × (length made ≡ length original)
      × (effect (on_target p) made ≡ neg (effect (on_target p) original))
unfolding reversal_entries
reversal_entries_undo entry_id p space_id original {made} h made_ok =
    rw (reversed_from-mirror entry_id 0 original {made = made} (ground (arith, h.several))) (
      mirror-IsPosting entry_id space_id 0 original h,
      length-mirror entry_id 0 original,
      effect-mirror entry_id p 0 original,
    )
