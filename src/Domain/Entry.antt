-- ===== src/Domain/Entry.antt =====
-- backend/app/ledger/domain/entry.py: signed ledger entries.
use personal_finance_public.Base.{
  String, Option, none, some, Bool, true, false, is_some, List, map, filter, Result, ok, raise_if,
  ◌>>=◌, ◌>>◌, value_error, not,
}
use personal_finance_public.Base.Int.{ℤ, neg, sum}
use personal_finance_public.Domain.Money

pub data EntrySide : Type 0 where
  debit credit : EntrySide

pub record Entry : Type 0 where
  pub id : String
  pub space_id : String
  pub side : EntrySide
  pub amount_cents : ℤ
  pub account_id : Option String
  pub category_id : Option String

abbrev pub eq_Bool : Bool → Bool → Bool
eq_Bool true b = b
eq_Bool false b = not b

-- `Entry(...)`, with `__post_init__`.
unfoldable pub new : Entry → Result Entry
new e = do
  _ ← Money.positive e.amount_cents
  raise_if (eq_Bool (is_some e.account_id) (is_some e.category_id)) value_error
  ok e

unfoldable pub for_account : String → String → String → EntrySide → ℤ → Result Entry
unfolding new
for_account entry_id space_id account_id side amount_cents = new (record {
  id = entry_id;
  space_id = space_id;
  side = side;
  amount_cents = amount_cents;
  account_id = some account_id;
  category_id = none;
})

unfoldable pub for_category : String → String → String → EntrySide → ℤ → Result Entry
unfolding new
for_category entry_id space_id category_id side amount_cents = new (record {
  id = entry_id;
  space_id = space_id;
  side = side;
  amount_cents = amount_cents;
  account_id = none;
  category_id = some category_id;
})

abbrev pub signed : EntrySide → ℤ → ℤ
signed debit cents = cents
signed credit cents = neg cents

-- The property `signed_cents`.
abbrev pub signed_cents : Entry → ℤ
signed_cents e = signed e.side e.amount_cents

abbrev pub opposite : EntrySide → EntrySide
opposite debit = credit
opposite credit = debit

unfoldable pub reversed : Entry → String → Result Entry
unfolding new
reversed e entry_id = new (record e { id = entry_id; side = opposite e.side })

-- The signed sum of the entries that a test selects.
abbrev pub effect : (Entry → Bool) → List Entry → ℤ
effect p entries = sum (map signed_cents (filter p entries))
