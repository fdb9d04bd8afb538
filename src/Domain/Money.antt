-- ===== src/Domain/Money.antt =====
-- backend/app/ledger/domain/money.py: exact euro amounts in integer cents.
-- Fields have the types that the source annotates, so the tests for a non-integer are not needed.
use personal_finance_public.Base.{
  String, ⊤, ◌≡◌, not, ◌==◌, Result, ok, raise_if, ◌>>=◌, ◌>>◌, currency_mismatch, invalid_amount,
}
use personal_finance_public.Base.Int.{ℤ, pos, ◌+ℤ◌, ◌-ℤ◌, neg, leb_ℤ}

pub record Money : Type 0 where
  pub cents : ℤ
  pub currency : String

abbrev pub eur : String
eur = "EUR"

-- `Money(cents, currency)`, with `__post_init__`.
unfoldable pub new : ℤ → String → Result Money
new cents currency = do
  raise_if (not (currency == eur)) invalid_amount
  ok (record { cents = cents; currency = currency })

-- `Money.positive(cents)`
unfoldable pub positive : ℤ → Result Money
unfolding new
positive cents = do
  value ← new cents eur
  raise_if (leb_ℤ value.cents (pos 0)) invalid_amount
  ok value

require_same_currency : Money → Money → Result ⊤
require_same_currency a b = raise_if (not (a.currency == b.currency)) currency_mismatch

-- `a + b`, `a - b` and `-a`
unfoldable pub add : Money → Money → Result Money
unfolding require_same_currency new
add a b = do require_same_currency a b; new (a.cents +ℤ b.cents) a.currency

unfoldable pub sub : Money → Money → Result Money
unfolding require_same_currency new
sub a b = do require_same_currency a b; new (a.cents -ℤ b.cents) a.currency

unfoldable pub negate : Money → Result Money
unfolding new
negate a = new (neg a.cents) a.currency

-- What the constructor guarantees.
abbrev pub IsEur : Money → Type 0
IsEur a = a.currency ≡ eur
