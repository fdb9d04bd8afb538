-- ===== src/Domain/Description.antt =====
-- backend/app/ledger/domain/description.py: descriptions of new writes and of history.
pub mod Bounds
use personal_finance_public.Base.{
  String, Option, none, some, ltb, if◌then◌else◌, Error, Result, ok, err, raise_if, ◌>>=◌, ◌>>◌,
  invalid_lifecycle,
}
use personal_finance_public.Base.{ℕ}
use personal_finance_public.Base.Text

abbrev pub max_description_length : ℕ
max_description_length = 500

abbrev pub legacy_description_fallback : String
legacy_description_fallback = "Sin descripción"

abbrev pub reversal_prefix : String
reversal_prefix = "Reversión de: "

unfoldable pub normalize_required_description : Option String → Result String
normalize_required_description none = err invalid_lifecycle
normalize_required_description (some description) = do
  let normalized = Text.strip description
  raise_if (Text.is_empty normalized) invalid_lifecycle
  raise_if (ltb max_description_length (Text.length normalized)) invalid_lifecycle
  ok normalized

unfoldable pub legacy_description_label : Option String → String
legacy_description_label none = legacy_description_fallback
legacy_description_label (some description) =
    let normalized = Text.strip description in
    if Text.is_empty normalized then legacy_description_fallback else normalized

unfoldable pub reversal_description : Option String → String
unfolding legacy_description_label
reversal_description original_description =
    Text.take max_description_length
      (Text.append reversal_prefix (legacy_description_label original_description))
