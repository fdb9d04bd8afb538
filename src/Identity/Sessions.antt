-- ===== src/Identity/Sessions.antt =====
-- `OpaqueSessionManager` of backend/app/identity/adapters/sessions.py.
pub mod Authentication
pub mod Grants
pub mod Revocation
use personal_finance_public.Base.{
  ⊤, String, ℕ, ◌+◌, Bool, true, false, ◌&&◌, ◌||◌, not, Option, none, some, is_some, List, [], ◌∷◌,
  find?, filter, leb, ◌==◌, Result, ok, err, if◌then◌else◌, runtime_error, multiple_results,
}
use personal_finance_public.Base.Text
use personal_finance_public.Storage.Table.{lookup}
use personal_finance_public.Storage.Exec.{Exec, pure, lift, raise, guard, ◌>>=◌, ◌>>◌}
use personal_finance_public.Storage.Schema.{Db, UserRecord, SpaceRecord, SessionRecord, user_keyed}
use personal_finance_public.Storage.Schema.IdentityRows.{insert_session, update_session_row}
use personal_finance_public.Storage.World.{
  World, Exit, committed, returned, utc_now, query, execute, unit_of_work,
}
use personal_finance_public.Identity.{PersonalSpace}
use personal_finance_public.Identity.Credentials.{IdentityEnv, new_id, token_urlsafe, digest}
use personal_finance_public.Identity.Repository.{space_for_user}

pub record AuthenticatedPrincipal : Type 0 where
  pub user_id : String
  pub space_id : String
  pub username : String

pub record SessionGrant : Type 0 where
  pub session_token : String
  pub csrf_token : String
  pub expires_at : ℕ
  pub principal_user_id : String
  pub principal_space_id : String

abbrev pub owns : Option PersonalSpace → String → Bool
owns none space_id = false
owns (some s) space_id = s.id == space_id

-- Neither revoked nor expired.
abbrev pub is_live : SessionRecord → ℕ → Bool
is_live s checked_at = not (is_some s.revoked_at || leb s.expires_at checked_at)

-- The spaces that a user owns, as the join has them.
abbrev pub principal_of : UserRecord → List SpaceRecord → Result (Option AuthenticatedPrincipal)
principal_of user [] = ok none
principal_of user (s ∷ []) =
    ok (some (record { user_id = user.id; space_id = s.id; username = user.username }))
principal_of user (s ∷ t ∷ rest) = err multiple_results

abbrev pub principal_if :
    Bool → Result (Option AuthenticatedPrincipal) → Result (Option AuthenticatedPrincipal)
principal_if live (err e) = err e
principal_if live (ok none) = ok none
principal_if live (ok (some p)) = if live then ok (some p) else ok none

abbrev pub joined_user :
    SessionRecord → ℕ → Db → Option UserRecord → Result (Option AuthenticatedPrincipal)
joined_user s checked_at db none = ok none
joined_user s checked_at db (some user) =
    principal_if (is_live s checked_at)
      (principal_of user (filter (λ x. x.owner_user_id == user.id) db.spaces))

abbrev pub joined_session : ℕ → Db → Option SessionRecord → Result (Option AuthenticatedPrincipal)
joined_session checked_at db none = ok none
joined_session checked_at db (some s) = joined_user s checked_at db (lookup s.user_id db.users)

module _ (e : IdentityEnv) where
  -- `WHERE token_hash = …`, which is unique.
  abbrev pub session_of : String → Db → Option SessionRecord
  session_of session_token db = find? (λ s. s.token_hash == digest e session_token) db.sessions

  unfoldable pub resolve : String → ℕ → Db → Result (Option AuthenticatedPrincipal)
  resolve session_token checked_at db = joined_session checked_at db (session_of session_token db)

  abbrev pub at_or_now : Option ℕ → Exec World ℕ
  at_or_now none = utc_now e.env
  at_or_now (some at) = pure at

  unfoldable pub authenticate : String → Option ℕ → Exec World (Option AuthenticatedPrincipal)
  authenticate session_token at = if Text.is_empty session_token then pure none else do
    checked_at ← at_or_now at
    found ← query (resolve session_token checked_at)
    lift found

  unfoldable pub create : String → String → ℕ → Exec World SessionGrant
  create user_id space_id now = do
    space ← space_for_user user_id
    guard (not (owns space space_id)) runtime_error
    session_token ← token_urlsafe e
    let csrf_token : String = e.csrf_hmac session_token
    unit_of_work do
      id ← new_id e
      execute (
          insert_session (record {
            id = id;
            user_id = user_id;
            token_hash = digest e session_token;
            csrf_token_hash = digest e csrf_token;
            expires_at = now + e.lifetime;
            created_at = now;
            revoked_at = none;
          }))
      pure (committed tt)
    pure (record {
      session_token = session_token;
      csrf_token = csrf_token;
      expires_at = now + e.lifetime;
      principal_user_id = user_id;
      principal_space_id = space_id;
    })

  -- What is left of both checks of a CSRF token once the session's row was selected; the clock is
  -- read only for a session that is not revoked.
  abbrev pub live_session : Option SessionRecord → Exec World (Option SessionRecord)
  live_session none = pure none
  live_session (some s) =
      if is_some s.revoked_at
      then pure none
      else do now ← utc_now e.env; pure (if is_live s now then some s else none)

  abbrev pub has_csrf : String → Option SessionRecord → Bool
  has_csrf csrf_token none = false
  has_csrf csrf_token (some s) = s.csrf_token_hash == digest e csrf_token

  unfoldable pub validate_csrf : String → String → Exec World Bool
  validate_csrf session_token csrf_token =
      if Text.is_empty session_token || Text.is_empty csrf_token then pure false else do
        found ← query (session_of session_token)
        live ← live_session found
        pure (has_csrf csrf_token live)

  unfoldable pub csrf_for_session : String → Exec World (Option String)
  csrf_for_session session_token = if Text.is_empty session_token then pure none else do
    found ← query (session_of session_token)
    live ← live_session found
    pure (
        if has_csrf (e.csrf_hmac session_token) live
        then some (e.csrf_hmac session_token)
        else none)

  abbrev pub revoke_found : ℕ → Option SessionRecord → Exec World (Exit Bool)
  revoke_found revoked_at none = pure (committed false)
  revoke_found revoked_at (some s) = if is_some s.revoked_at then pure (committed false) else do
    execute (update_session_row (record s { revoked_at = some revoked_at }))
    pure (committed true)

  unfoldable pub revoke : String → ℕ → Exec World Bool
  revoke session_token revoked_at =
      if Text.is_empty session_token
      then pure false
      else unit_of_work do found ← query (session_of session_token); revoke_found revoked_at found
