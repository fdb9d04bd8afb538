-- ===== src/Domain/Description/Bounds.antt =====
-- The form of the descriptions of backend/app/ledger/domain/description.py.
use personal_finance_public.Base.{String, ◌≤◌, ◌≡◌, refl, Option, some, none, false, arith, ok}
use personal_finance_public.Base.Text
use personal_finance_public.Base.Text.Strip.{strip-strip, length-take-le}
use personal_finance_public.Domain.Description.{
  max_description_length, normalize_required_description, reversal_description, reversal_prefix,
}

-- What a canonical description is: no space at either end, not blank, at most 500 characters.
pub record IsCanonical (text : String) : Type 0 where
  pub trimmed : Text.strip text ≡ text
  pub present : Text.is_empty text ≡ false
  pub bounded : Text.length text ≤ max_description_length

-- Whatever description is accepted, what is written for it is canonical.
pub normalize-IsCanonical :
    (description : Option String) {text : String}
    → normalize_required_description description ≡ ok text
    → IsCanonical text
unfolding normalize_required_description
normalize-IsCanonical none h = ground arith
normalize-IsCanonical (some description) h = record {
  trimmed = ground (arith, strip-strip description);
  present = ground arith;
  bounded = ground arith;
}

-- A canonical text is accepted as it is.
pub normalize_canonical :
    (text : String) → IsCanonical text → normalize_required_description (some text) ≡ ok text
unfolding normalize_required_description
normalize_canonical text h = rw (h.trimmed, h.present) (ground arith)

-- The text of a reversal begins with the prefix and has at most 500 characters.
pub reversal_description-le :
    (description : Option String)
    → Text.length (reversal_description description) ≤ max_description_length
unfolding reversal_description
reversal_description-le description = length-take-le max_description_length _

pub reversal_description_prefix :
    (description : Option String)
    → Text.take 14 (reversal_description description) ≡ reversal_prefix
unfolding reversal_description Text.take Text.append
reversal_description_prefix description = refl
