-- ===== src/Audit/Event.antt =====
-- backend/app/audit/domain/event.py: immutable, minimized audit events.
pub mod Validity
use personal_finance_public.Base.{
  ⊤, String, ℕ, Bool, true, false, ◌&&◌, ◌||◌, not, is_some, Option, none, some, List, [], ◌∷◌, ltb,
  nat_eq, ◌==◌, text_le, if◌then◌else◌, Result, ok, err, raise_if, ◌>>=◌, ◌>>◌, value_error,
  type_error,
}
use personal_finance_public.Base.Int.{ℤ, pos, leb_ℤ, eq_ℤ}
use personal_finance_public.Base.Text

pub data AuditAction : Type 0 where
  login logout credential_reset posting reversal reconciliation backup restore : AuditAction

pub data AuditResult : Type 0 where
  success failure : AuditResult

pub data AuditScope : Type 0 where
  space system : AuditScope

pub data AuditScalar : Type 0 where
  text : String → AuditScalar
  number : ℤ → AuditScalar
  flag : Bool → AuditScalar
  nothing : AuditScalar

abbrev pub AuditMetadata : Type 0
AuditMetadata = List (String × AuditScalar)

-- A bool is a number to Python's comparisons.
abbrev as_number : AuditScalar → Option ℤ
as_number (number n) = some n
as_number (flag true) = some (pos 1)
as_number (flag false) = some (pos 0)
as_number (text s) = none
as_number nothing = none

abbrev by_number : Option ℤ → Option ℤ → Result Bool
by_number (some a) (some b) = ok (leb_ℤ a b)
by_number _ _ = err type_error

-- `not (b < a)`, where equal values are not compared.
abbrev scalar_le : AuditScalar → AuditScalar → Result Bool
scalar_le (text a) (text b) = ok (text_le a b)
scalar_le nothing nothing = ok true
scalar_le a b = by_number (as_number a) (as_number b)

abbrev pub pair_le : String × AuditScalar → String × AuditScalar → Result Bool
pair_le (k, v) (l, w) = if k == l then scalar_le v w else ok (text_le k l)

-- `tuple(sorted(metadata)) == metadata`. Where some neighbours are out of order and others cannot
-- be compared, the first such pair decides on the error.
unfoldable pub is_sorted : AuditMetadata → Result Bool
is_sorted [] = ok true
is_sorted (x ∷ []) = ok true
is_sorted (x ∷ y ∷ rest) = do
  first ← pair_le x y
  others ← is_sorted (y ∷ rest)
  ok (first && others)

-- `_required_identifier` and `_optional_identifier`; neither is called with another maximum.
abbrev pub maximum : ℕ
maximum = 120

unfoldable pub is_identifier : String → Bool
is_identifier value =
    not (Text.is_empty value)
    && (value == Text.strip value && not (ltb maximum (Text.length value)))

unfoldable pub required_identifier : String → Result ⊤
unfolding is_identifier
required_identifier value = raise_if (not (is_identifier value)) value_error

unfoldable pub optional_identifier : Option String → Result ⊤
unfolding required_identifier
optional_identifier none = ok tt
optional_identifier (some value) = required_identifier value

-- Timestamps are in UTC by their type.
pub record AuditEventDraft : Type 0 where
  pub occurred_at : ℕ
  pub action : AuditAction
  pub result : AuditResult
  pub scope : AuditScope
  pub space_id : Option String
  pub actor_id : Option String
  pub entity_type : Option String
  pub entity_id : Option String
  pub correlation_id : String
  pub metadata : AuditMetadata

abbrev pub scope_fits : AuditScope → Option String → Bool
scope_fits space space_id = is_some space_id
scope_fits system space_id = not (is_some space_id)

abbrev pub both_or_neither : Option String → Option String → Bool
both_or_neither none b = not (is_some b)
both_or_neither (some a) b = is_some b

-- `AuditEventDraft(...)`, with `__post_init__`.
unfoldable pub new_event_draft : AuditEventDraft → Result AuditEventDraft
unfolding required_identifier optional_identifier
new_event_draft d = do
  required_identifier d.correlation_id
  optional_identifier d.space_id
  optional_identifier d.actor_id
  optional_identifier d.entity_type
  optional_identifier d.entity_id
  raise_if (not (scope_fits d.scope d.space_id)) value_error
  raise_if (not (both_or_neither d.entity_type d.entity_id)) value_error
  sorted ← is_sorted d.metadata
  raise_if (not sorted) value_error
  ok d

pub record AuditEvent : Type 0 where
  pub id : String
  pub draft : AuditEventDraft
  pub open draft use *

-- `AuditEvent(...)`, and so `AuditEvent.from_draft`.
unfoldable pub from_draft : String → AuditEventDraft → Result AuditEvent
unfolding required_identifier
from_draft event_id draft = do
  required_identifier event_id
  checked ← new_event_draft draft
  ok (record { id = event_id; draft = checked })

-- The values of the enumerations, and reading them back.
abbrev pub action_value : AuditAction → String
action_value login = "LOGIN"
action_value logout = "LOGOUT"
action_value credential_reset = "CREDENTIAL_RESET"
action_value posting = "POSTING"
action_value reversal = "REVERSAL"
action_value reconciliation = "RECONCILIATION"
action_value backup = "BACKUP"
action_value restore = "RESTORE"

unfoldable pub action_of : String → Result AuditAction
action_of s =
    if s == "LOGIN"
    then ok login
    else if s == "LOGOUT"
    then ok logout
    else if s == "CREDENTIAL_RESET"
    then ok credential_reset
    else if s == "POSTING"
    then ok posting
    else if s == "REVERSAL"
    then ok reversal
    else if s == "RECONCILIATION"
    then ok reconciliation
    else if s == "BACKUP"
    then ok backup
    else if s == "RESTORE"
    then ok restore
    else err value_error

abbrev pub result_value : AuditResult → String
result_value success = "SUCCESS"
result_value failure = "FAILURE"

unfoldable pub result_of : String → Result AuditResult
result_of s =
    if s == "SUCCESS" then ok success else if s == "FAILURE" then ok failure else err value_error
