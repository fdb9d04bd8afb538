-- ===== src/Audit/Redaction/Safety.antt =====
-- Metadata that `minimize_metadata` accepts, and its allowlist.
use personal_finance_public.Base.{
  String, true, false, ◌≡◌, refl, Option, none, some, List, [], ◌∷◌, any, All, All-sort_by, arith,
  text_le, sort_by, ok, Result-cases, inl, inr, >>=-eq-ok,
}
use personal_finance_public.Audit.Event.{
  AuditAction, login, logout, credential_reset, posting, reversal, reconciliation, backup, restore,
  AuditScalar, AuditMetadata,
}
use personal_finance_public.Audit.Redaction.{
  MetadataValue, scalar, other, allowed_keys, after_word, search_in, is_forbidden_key,
  is_allowed_key, is_secret, minimized, minimize_metadata,
}

-- A pair that may be stored for an action.
pub record IsSafe (action : AuditAction) (item : String × AuditScalar) : Type 0 where
  pub allowed : is_allowed_key action item.0 ≡ true
  pub not_forbidden : is_forbidden_key item.0 ≡ false
  pub not_secret : is_secret item.1 ≡ false

minimized-IsSafe :
    (action : AuditAction) (items : List (String × MetadataValue)) {kept : AuditMetadata}
    → minimized action items ≡ ok kept
    → All (IsSafe action) kept
unfolding minimized
minimized-IsSafe action [] {kept} h = let e : kept ≡ [] = ground (arith, h) in rw e tt
minimized-IsSafe action ((key, scalar value) ∷ rest) {kept} h =
    elim (Result-cases (minimized action rest)) [
      | inl (others, r) ↦
          let e : kept ≡ (key, value) ∷ others = ground (arith, h, r) in
          rw e (
            record {
              allowed = ground (arith, h);
              not_forbidden = ground (arith, h);
              not_secret = ground (arith, h);
            },
            minimized-IsSafe action rest r,
          )
      | inr (x, r) ↦ absurd (ground (arith, h, r))
    ]
minimized-IsSafe action ((key, other) ∷ rest) h = absurd (ground (arith, h))

-- Every pair of accepted metadata has a key of the action's allowlist, no word of the forbidden ones
-- in its key, and no text that looks like a secret.
pub minimize_metadata-IsSafe :
    (action : AuditAction) (metadata : Option (List (String × MetadataValue)))
    {kept : AuditMetadata}
    → minimize_metadata action metadata ≡ ok kept
    → All (IsSafe action) kept
unfolding minimize_metadata
minimize_metadata-IsSafe action none {kept} h = let e : kept ≡ [] = ground (arith, h) in rw e tt
minimize_metadata-IsSafe action (some items) {kept} h =
    let (accepted, r, done) = >>=-eq-ok (minimized action items) _ h in
    let e : kept ≡ sort_by (λ a b. text_le a.0 b.0) accepted = ground (arith, done) in
    rw e (
      All-sort_by (λ a b. text_le a.0 b.0) (IsSafe action) accepted
        (minimized-IsSafe action items r))

-- No key of an allowlist is forbidden, so that the first test never refuses an allowed key.
pub allowed_keys_not_forbidden :
    (action : AuditAction) → any is_forbidden_key (allowed_keys action) ≡ false
unfolding allowed_keys is_forbidden_key search_in after_word
allowed_keys_not_forbidden login = refl
allowed_keys_not_forbidden logout = refl
allowed_keys_not_forbidden credential_reset = refl
allowed_keys_not_forbidden posting = refl
allowed_keys_not_forbidden reversal = refl
allowed_keys_not_forbidden reconciliation = refl
allowed_keys_not_forbidden backup = refl
allowed_keys_not_forbidden restore = refl
