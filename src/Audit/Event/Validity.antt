-- ===== src/Audit/Event/Validity.antt =====
-- What an audit event that was constructed satisfies.
use personal_finance_public.Base.{
  String, Bool, true, ◌≡◌, refl, Option, none, some, arith, ◌==◌, ok, >>=-eq-ok,
}
use personal_finance_public.Audit.Event.{
  AuditAction, login, logout, credential_reset, posting, reversal, reconciliation, backup, restore,
  AuditResult, success, failure, AuditEventDraft, is_identifier, required_identifier,
  optional_identifier, scope_fits, both_or_neither, is_sorted, new_event_draft, action_value,
  action_of, result_value, result_of,
}

abbrev pub is_optional : Option String → Bool
is_optional none = true
is_optional (some value) = is_identifier value

pub record IsValid (d : AuditEventDraft) : Type 0 where
  pub correlation : is_identifier d.correlation_id ≡ true
  pub space : is_optional d.space_id ≡ true
  pub actor : is_optional d.actor_id ≡ true
  pub entity : is_optional d.entity_id ≡ true
  pub scoped : scope_fits d.scope d.space_id ≡ true
  pub paired : both_or_neither d.entity_type d.entity_id ≡ true
  pub sorted : is_sorted d.metadata ≡ ok true

required-ok : (s : String) → required_identifier s ≡ ok tt → is_identifier s ≡ true
unfolding required_identifier
required-ok s h = ground arith

optional-ok : (o : Option String) → optional_identifier o ≡ ok tt → is_optional o ≡ true
unfolding optional_identifier
optional-ok none h = refl
optional-ok (some s) h = required-ok s h

-- The constructor returns what it was given, and only if its identifiers are opaque and bounded, its
-- scope fits its space, an entity's type and identifier come together and its metadata is sorted.
pub new_event_draft-IsValid :
    (d : AuditEventDraft) {made : AuditEventDraft}
    → new_event_draft d ≡ ok made
    → IsValid d × (made ≡ d)
unfolding new_event_draft
new_event_draft-IsValid d h =
    let (_, c, h1) = >>=-eq-ok (required_identifier d.correlation_id) _ h in
    let (_, s, h2) = >>=-eq-ok (optional_identifier d.space_id) _ h1 in
    let (_, a, h3) = >>=-eq-ok (optional_identifier d.actor_id) _ h2 in
    let (_, t, h4) = >>=-eq-ok (optional_identifier d.entity_type) _ h3 in
    let (_, e, h5) = >>=-eq-ok (optional_identifier d.entity_id) _ h4 in
    (
      record {
        correlation = required-ok _ c;
        space = optional-ok _ s;
        actor = optional-ok _ a;
        entity = optional-ok _ e;
        scoped = ground (arith, h5);
        paired = ground (arith, h5);
        sorted = ground (arith, h5);
      },
      ground (arith, h5),
    )

action_read : (a : AuditAction) → action_of (action_value a) ≡ ok a
unfolding action_of ◌==◌
action_read login = refl
action_read logout = refl
action_read credential_reset = refl
action_read posting = refl
action_read reversal = refl
action_read reconciliation = refl
action_read backup = refl
action_read restore = refl

result_read : (r : AuditResult) → result_of (result_value r) ≡ ok r
unfolding result_of ◌==◌
result_read success = refl
result_read failure = refl

-- The values that are stored for an action and a result are read back as the same ones.
pub action_of-action_value :
    (a : AuditAction) (r : AuditResult)
    → (action_of (action_value a) ≡ ok a) × (result_of (result_value r) ≡ ok r)
action_of-action_value a r = (action_read a, result_read r)
