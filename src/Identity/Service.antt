-- ===== src/Identity/Service.antt =====
-- backend/app/identity/application/service.py: `IdentityService`.
pub mod Reset
pub mod Bootstrap
pub mod Ledger
use personal_finance_public.Base.{
  ⊤, String, ℕ, Bool, true, false, ◌&&◌, Option, none, some, if◌then◌else◌, authentication_failed,
  bootstrap_required, bootstrap_already_completed,
}
use personal_finance_public.Storage.Exec.{Exec, pure, lift, raise, guard, or_raise, ◌>>=◌, ◌>>◌}
use personal_finance_public.Storage.World.{World, Exit, committed, returned, utc_now, unit_of_work}
use personal_finance_public.Identity.{User, PersonalSpace, new_user, new_space, with_password_hash}
use personal_finance_public.Identity.Credentials.{
  IdentityEnv, AuthenticationAuditSink, new_id, hash, verify,
}
use personal_finance_public.Identity.Repository.{
  has_any_user, add_user, add_space, user_by_username, only_user, space_for_user, update_user,
  revoke_sessions,
}
use personal_finance_public.Identity.Sessions.{AuthenticatedPrincipal, SessionGrant, create, revoke}

abbrev pub hash_of : String → Option User → String
hash_of dummy none = dummy
hash_of dummy (some u) = u.password_hash

-- `transaction.identity.space_for_user(user.id) if … else None`
abbrev pub space_if : Bool → Option User → Exec World (Option PersonalSpace)
space_if password_matches none = pure none
space_if password_matches (some u) =
    if password_matches && u.active then space_for_user u.id else pure none

module _ (e : IdentityEnv) where
  -- The unit of work of `bootstrap`.
  unfoldable pub establish : User → PersonalSpace → Exec World (Exit ⊤)
  establish user space = do
    configured ← has_any_user
    guard configured bootstrap_already_completed
    add_user user
    add_space space
    pure (committed tt)

  unfoldable pub bootstrap : String → String → String → Exec World AuthenticatedPrincipal
  bootstrap username password space_name = do
    now ← utc_now e.env
    user_id ← new_id e
    password_hash ← hash e password
    user ← lift (
        new_user (record {
          id = user_id;
          username = username;
          password_hash = password_hash;
          credential_version = 1;
          created_at = now;
          active = true;
        }))
    space_id ← new_id e
    space ← lift (
        new_space
          (record { id = space_id; owner_user_id = user.id; name = space_name; created_at = now }))
    unit_of_work (establish user space)
    pure (record { user_id = user.id; space_id = space.id; username = user.username })

  -- The unit of work of `login`: the user and the space, where the credentials are right.
  unfoldable pub check_credentials :
      String → String → Exec World (Option User × Option PersonalSpace)
  check_credentials username password = unit_of_work do
    user ← user_by_username username
    space ← space_if (verify e password (hash_of e.dummy_password_hash user)) user
    pure (returned (user, space))

  module _ (sink : AuthenticationAuditSink) where
    -- A login without a user has no space.
    unfoldable pub finish_login :
        String → Option User × Option PersonalSpace → Exec World SessionGrant
    finish_login correlation_id (some user, some space) = do
      now ← utc_now e.env
      grant ← create e user.id space.id now
      sink.record_authentication "LOGIN" "SUCCESS" (some user.id) (some space.id) correlation_id
      pure grant
    finish_login correlation_id _ = do
      sink.record_authentication "LOGIN" "FAILURE" none none correlation_id
      raise authentication_failed

    unfoldable pub login : String → String → String → Exec World SessionGrant
    login username password correlation_id = do
      checked ← check_credentials username password
      finish_login correlation_id checked

    unfoldable pub logout : String → String → String → String → Exec World ⊤
    logout session_token principal_user_id principal_space_id correlation_id = do
      now ← utc_now e.env
      _ ← revoke e session_token now
      sink.record_authentication "LOGOUT" "SUCCESS" (some principal_user_id)
          (some principal_space_id) correlation_id

    unfoldable pub rotate_for :
        String → ℕ → User → PersonalSpace → Exec World (Exit (User × PersonalSpace))
    rotate_for new_password now user space = do
      password_hash ← hash e new_password
      rotated ← lift (with_password_hash user password_hash)
      update_user rotated
      revoke_sessions user.id now
      pure (committed (user, space))

    -- The unit of work of `reset_credentials`.
    unfoldable pub rotate : String → ℕ → Exec World (Exit (User × PersonalSpace))
    rotate new_password now = do
      found ← only_user
      user ← or_raise found bootstrap_required
      owned ← space_for_user user.id
      space ← or_raise owned bootstrap_required
      rotate_for new_password now user space

    unfoldable pub reset_credentials : String → String → Exec World ⊤
    reset_credentials new_password correlation_id = do
      now ← utc_now e.env
      (user, space) ← unit_of_work (rotate new_password now)
      sink.record_authentication "CREDENTIAL_RESET" "SUCCESS" (some user.id) (some space.id)
          correlation_id
