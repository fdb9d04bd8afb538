-- ===== src/Audit/Record/Encoding.antt =====
-- Events and metadata against the rows that hold them.
use personal_finance_public.Base.{
  String, Bool, true, ◌&&◌, not, ◌≡◌, refl, ap, ◌∙◌, Option, none, some, [], ◌∷◌, arith, text_le,
  sort_by, insert_sorted, ok, >>=-eq-ok,
}
use personal_finance_public.Storage.Json.{JsonValue}
use personal_finance_public.Storage.World.{Env}
use personal_finance_public.Audit.Event.{
  AuditScalar, text, number, flag, nothing, AuditMetadata, AuditScope, AuditEventDraft, AuditEvent,
  required_identifier, is_sorted, pair_le, new_event_draft, from_draft, scope_fits,
}
use personal_finance_public.Audit.Event.Validity.{
  IsValid, new_event_draft-IsValid, action_of-action_value,
}
use personal_finance_public.Audit.Record.{
  of_scalar, to_scalar, has_item, to_dict, by_key, to_fields, to_object, of_fields, encode_metadata,
  decode_metadata, scope_of, record_of, event_of,
}

to_scalar-of_scalar : (v : AuditScalar) → to_scalar (of_scalar v) ≡ ok v
to_scalar-of_scalar (text s) = refl
to_scalar-of_scalar (number n) = refl
to_scalar-of_scalar (flag b) = refl
to_scalar-of_scalar nothing = refl

of_fields-to_fields : (m : AuditMetadata) → of_fields (to_fields m) ≡ ok m
unfolding of_fields to_fields
of_fields-to_fields [] = refl
of_fields-to_fields ((k, v) ∷ rest) = rw (to_scalar-of_scalar v, of_fields-to_fields rest) refl

-- Neighbours are in the order of their keys.
abbrev pub in_order : AuditMetadata → Bool
in_order [] = true
in_order (x ∷ []) = true
in_order (x ∷ y ∷ rest) = text_le x.0 y.0 && in_order (y ∷ rest)

sort_by_self : (m : AuditMetadata) → in_order m ≡ true → sort_by by_key m ≡ m
sort_by_self [] h = refl
sort_by_self (x ∷ []) h = refl
sort_by_self (x ∷ y ∷ rest) h =
    let first : text_le x.0 y.0 ≡ true = ground (arith, h) in
    ap (insert_sorted by_key x) (sort_by_self (y ∷ rest) (ground (arith, h))) ∙ rw first refl

abbrev pub has_distinct_keys : AuditMetadata → Bool
has_distinct_keys [] = true
has_distinct_keys (x ∷ rest) = not (has_item x.0 rest) && has_distinct_keys rest

to_dict_self : (m : AuditMetadata) → has_distinct_keys m ≡ true → to_dict m ≡ m
unfolding to_dict
to_dict_self [] h = refl
to_dict_self (x ∷ rest) h =
    ground
      (arith, h, to_dict_self rest (let d : has_distinct_keys rest ≡ true = ground (arith, h) in d))

-- Metadata that an event accepts is in the order of its keys, if those are distinct.
is_sorted-in_order :
    (m : AuditMetadata) → is_sorted m ≡ ok true → has_distinct_keys m ≡ true → in_order m ≡ true
unfolding is_sorted
is_sorted-in_order [] h d = refl
is_sorted-in_order (x ∷ []) h d = refl
is_sorted-in_order (x ∷ y ∷ rest) h d =
    let (first, e1, h1) = >>=-eq-ok (pair_le x y) _ h in
    let (others, e2, h2) = >>=-eq-ok (is_sorted (y ∷ rest)) _ h1 in
    let sorted : is_sorted (y ∷ rest) ≡ ok true = ground (arith, e2, h2) in
    let tail = is_sorted-in_order (y ∷ rest) sorted (ground (arith, d)) in
    ground (arith, e1, h2, d, tail)

to_object_self :
    (m : AuditMetadata)
    → in_order m ≡ true
    → has_distinct_keys m ≡ true
    → to_object m ≡ JsonValue.dict (to_fields m)
to_object_self m o d = rw (to_dict_self m d, sort_by_self m o) refl

decode_metadata-encode_metadata :
    (env : Env) (m : AuditMetadata)
    → in_order m ≡ true
    → has_distinct_keys m ≡ true
    → env.json_loads (env.json_dumps (to_object m)) ≡ some (to_object m)
    → decode_metadata env (encode_metadata env m) ≡ ok m
unfolding decode_metadata encode_metadata
decode_metadata-encode_metadata env [] o d reads = refl
decode_metadata-encode_metadata env (x ∷ rest) o d reads =
    rw (reads, to_dict_self (x ∷ rest) d, sort_by_self (x ∷ rest) o, of_fields-to_fields (x ∷ rest))
      (ap ok (sort_by_self (x ∷ rest) o))

scope_read :
    (scope : AuditScope) (space_id : Option String)
    → scope_fits scope space_id ≡ true
    → scope_of space_id ≡ scope
scope_read AuditScope.space none h = absurd (ground (arith, h))
scope_read AuditScope.space (some s) h = refl
scope_read AuditScope.system none h = refl
scope_read AuditScope.system (some s) h = absurd (ground (arith, h))

from_draft-ok :
    (id : String) (d : AuditEventDraft) {e : AuditEvent}
    → from_draft id d ≡ ok e
    → IsValid d × (e.id ≡ id) × (e.draft ≡ d)
unfolding from_draft
from_draft-ok id d h =
    let (_, _, h1) = >>=-eq-ok (required_identifier id) _ h in
    let (made, m, h2) = >>=-eq-ok (new_event_draft d) _ h1 in
    let (valid, same) = new_event_draft-IsValid d m in (valid, cc h2, cc (same, h2))

-- If the keys of a constructed event's metadata are distinct, and `json.loads` reads the object that
-- `json.dumps` writes for them back as it was, the event's row is read back as the event.
pub event_of-record_of :
    (env : Env) (id : String) (d : AuditEventDraft) {e : AuditEvent}
    → from_draft id d ≡ ok e
    → has_distinct_keys e.metadata ≡ true
    → env.json_loads (env.json_dumps (to_object e.metadata)) ≡ some (to_object e.metadata)
    → event_of env (record_of env e) ≡ ok e
unfolding event_of record_of
event_of-record_of env id d {e} h distinct reads =
    let (valid, same_id, same) = from_draft-ok id d h in
    let sorted = is_sorted-in_order e.metadata (rw same valid.sorted) distinct in
    let (acts, ends) = action_of-action_value e.action e.result in
    let metadata = decode_metadata-encode_metadata env e.metadata sorted distinct reads in
    let scope = scope_read e.scope e.space_id (rw same valid.scoped) in
    rw (acts, ends, metadata, scope)
      (ap (from_draft e.id) same ∙ ap (λ i. from_draft i d) same_id ∙ h)
