-- ===== src/Audit/Redaction.antt =====
-- backend/app/audit/adapters/redaction.py: metadata is allowlisted by action and refused when it
-- looks like a secret. The two regular expressions are matched by hand, without regard to case.
pub mod Safety
use Prim.Native.Char.{Char, code}
use Prim.Native.String.{[], ◌∷◌}
use personal_finance_public.Base.{
  String, ℕ, ◌+◌, Bool, true, false, ◌&&◌, ◌||◌, not, Option, none, some, List, any, leb, nat_eq,
  ◌==◌, text_le, sort_by, if◌then◌else◌, Result, ok, err, raise_if, ◌>>=◌, ◌>>◌,
  audit_metadata_rejected,
}
use personal_finance_public.Base.{List}
use mathlib.Core.List.{[] as nil, ◌∷◌ as cons}
use personal_finance_public.Base.Text
use personal_finance_public.Audit.Event.{
  AuditAction, login, logout, credential_reset, posting, reversal, reconciliation, backup, restore,
  AuditScalar, text, AuditMetadata,
}

-- `_ALLOWED_KEYS`
unfoldable pub allowed_keys : AuditAction → List String
allowed_keys login = cons "reason" nil
allowed_keys logout = nil
allowed_keys credential_reset = nil
allowed_keys posting = cons "operation_kind" nil
allowed_keys reversal = cons "operation_kind" nil
allowed_keys reconciliation = cons "status" nil
allowed_keys backup = cons "verification_status" nil
allowed_keys restore = cons "verification_status" nil

-- A character under `re.IGNORECASE`: the letters of ASCII, and the four other characters that `re`
-- takes for one of them.
abbrev fold : Char → ℕ
fold c =
    let n = code c in
    if leb 65 n && leb n 90
    then n + 32
    else if nat_eq n 0x130 || nat_eq n 0x131
    then 105
    else if nat_eq n 0x17f
    then 115
    else if nat_eq n 0x212a
    then 107
    else n

-- What follows a word at the start of a text.
unfoldable pub after_word : String → String → Option String
after_word [] s = some s
after_word (p ∷ ps) [] = none
after_word (p ∷ ps) (c ∷ s) =
    let rest = after_word ps s in if nat_eq (fold p) (fold c) then rest else none

abbrev begins : String → String → Bool
begins word s = elim (after_word word s) [ none ↦ false | some rest ↦ true ]

-- `re.search`: a match at some place.
unfoldable pub search_in : (String → Bool) → String → Bool
search_in matches [] = matches []
search_in matches (c ∷ s) = matches (c ∷ s) || search_in matches s

abbrev forbidden_words : List String
forbidden_words = cons "password" (
    cons "passphrase" (
      cons "hash" (
        cons "token" (
          cons "cookie" (
            cons "csrf"
              (cons "secret" (cons "path" (cons "amount" (cons "entry" (cons "payload" nil))))))))))

-- `_FORBIDDEN_KEY.search(key)`
unfoldable pub is_forbidden_key : String → Bool
is_forbidden_key key = search_in (λ s. any (λ word. begins word s) forbidden_words) key

-- `\s*` is followed by an equals sign.
abbrev then_equals : String → Bool
then_equals s = elim (Text.lstrip s) [ [] ↦ false | c ∷ rest ↦ nat_eq (code c) 61 ]

-- `[a-z0-9._~+/=-]`
abbrev in_bearer : Char → Bool
in_bearer c =
    let n = fold c in
    (leb 97 n && leb n 122)
    || ((leb 48 n && leb n 57)
        || (nat_eq n 46
            || (nat_eq n 95
                || (nat_eq n 126
                    || (nat_eq n 43 || (nat_eq n 47 || (nat_eq n 61 || nat_eq n 45)))))))

-- `\s+[a-z0-9._~+/=-]+`
abbrev then_bearer : String → Bool
then_bearer [] = false
then_bearer (c ∷ s) =
    Text.is_space c && elim (Text.lstrip s) [ [] ↦ false | d ∷ rest ↦ in_bearer d ]

-- `[^=\s]*=`
unfoldable pub value_equals : String → Bool
value_equals [] = false
value_equals (c ∷ s) =
    let rest = value_equals s in
    if nat_eq (code c) 61 then true else if Text.is_space c then false else rest

-- `[^=\s]+=`
abbrev then_value : String → Bool
then_value [] = false
then_value (c ∷ s) = not (nat_eq (code c) 61) && (not (Text.is_space c) && value_equals s)

abbrev continues : Option String → (String → Bool) → Bool
continues none p = false
continues (some rest) p = p rest

abbrev begins_secret : String → Bool
begins_secret s =
    continues (after_word "bearer" s) then_bearer
    || (continues (after_word "__host-" s) then_value
        || (continues (after_word "password" s) then_equals
            || continues (after_word "cookie" s) then_equals))

-- `_SECRET_VALUE.search(value)`
unfoldable pub is_secret_value : String → Bool
is_secret_value value = search_in begins_secret value

-- A value of the mapping: a scalar or anything else.
pub data MetadataValue : Type 0 where
  scalar : AuditScalar → MetadataValue
  other : MetadataValue

abbrev pub is_allowed_key : AuditAction → String → Bool
is_allowed_key action key = any (λ allowed. allowed == key) (allowed_keys action)

abbrev pub is_secret : AuditScalar → Bool
is_secret (text value) = is_secret_value value
is_secret _ = false

abbrev accepted_value : MetadataValue → Result AuditScalar
accepted_value other = err audit_metadata_rejected
accepted_value (scalar value) = do raise_if (is_secret value) audit_metadata_rejected; ok value

-- The loop over the items.
unfoldable pub minimized : AuditAction → List (String × MetadataValue) → Result AuditMetadata
minimized action nil = ok nil
minimized action (cons (key, value) rest) = do
  raise_if (is_forbidden_key key || not (is_allowed_key action key)) audit_metadata_rejected
  accepted ← accepted_value value
  others ← minimized action rest
  ok (cons (key, accepted) others)

-- The keys of a mapping are distinct, so that sorting looks at the keys alone.
unfoldable pub minimize_metadata :
    AuditAction → Option (List (String × MetadataValue)) → Result AuditMetadata
minimize_metadata action none = ok nil
minimize_metadata action (some metadata) = do
  kept ← minimized action metadata
  ok (sort_by (λ a b. text_le a.0 b.0) kept)
