-- ===== src/Domain/Account.antt =====
-- backend/app/ledger/domain/account.py: accounts and flat categories.
pub mod Validity
use personal_finance_public.Base.{
  String, Bool, true, false, ◌&&◌, ◌||◌, ltb, Error, Result, ok, err, raise_if, ◌>>=◌, ◌>>◌,
  value_error, invalid_lifecycle,
}
use personal_finance_public.Base.Text

pub data AccountKind : Type 0 where
  asset liability equity : AccountKind

pub data CategoryKind : Type 0 where
  income expense : CategoryKind

abbrev pub is_equity : AccountKind → Bool
is_equity asset = false
is_equity liability = false
is_equity equity = true

abbrev pub eq_category_kind : CategoryKind → CategoryKind → Bool
eq_category_kind income income = true
eq_category_kind income expense = false
eq_category_kind expense income = false
eq_category_kind expense expense = true

unfoldable pub validated_name : String → Result String
validated_name name = do
  let normalized = Text.strip name
  raise_if (Text.is_empty normalized || ltb 120 (Text.length normalized)) value_error
  ok normalized

pub record Account : Type 0 where
  pub id : String
  pub space_id : String
  pub name : String
  pub kind : AccountKind
  pub is_archived : Bool
  pub is_reconcilable : Bool

-- `Account(...)` runs `__post_init__`, and so does every `replace(self, ...)`.
unfoldable pub new_account : Account → Result Account
unfolding validated_name
new_account a = do
  name ← validated_name a.name
  raise_if (is_equity a.kind && a.is_reconcilable) invalid_lifecycle
  ok (record a { name = name })

unfoldable pub rename : Account → String → Result Account
unfolding new_account validated_name
rename a name = do normalized ← validated_name name; new_account (record a { name = normalized })

unfoldable pub archive : Account → Result Account
unfolding new_account
archive a = new_account (record a { is_archived = true })

unfoldable pub unarchive : Account → Result Account
unfolding new_account
unarchive a = new_account (record a { is_archived = false })

pub record Category : Type 0 where
  pub id : String
  pub space_id : String
  pub name : String
  pub kind : CategoryKind
  pub is_archived : Bool

unfoldable pub new_category : Category → Result Category
unfolding validated_name
new_category c = do name ← validated_name c.name; ok (record c { name = name })

-- The methods of `Category`, under the names that they have there.
unfoldable pub rename_category : Category → String → Result Category
unfolding new_category validated_name
rename_category c name = do
  normalized ← validated_name name
  new_category (record c { name = normalized })

unfoldable pub archive_category : Category → Result Category
unfolding new_category
archive_category c = new_category (record c { is_archived = true })

unfoldable pub unarchive_category : Category → Result Category
unfolding new_category
unarchive_category c = new_category (record c { is_archived = false })
