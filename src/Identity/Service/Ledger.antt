-- ===== src/Identity/Service/Ledger.antt =====
-- The identity component and the tables of the ledger.
use personal_finance_public.Base.{String, ℕ, Bool, Option, none, some, List, [], ◌∷◌}
use personal_finance_public.Storage.Schema.{UserRecord, SpaceRecord, SessionRecord}
use personal_finance_public.Storage.Schema.Soundness.{Grows}
use personal_finance_public.Storage.Schema.Others.{SameLedger-Grows, Grows-preorder}
use personal_finance_public.Storage.Schema.IdentityRows.{identity_rules}
use personal_finance_public.Storage.World.Rules.{Keeps}
use personal_finance_public.Ledger.Audit.{Keeps-AuditOnly-Grows}
use personal_finance_public.Identity.{User, PersonalSpace}
use personal_finance_public.Identity.Credentials.{IdentityEnv, AuthenticationAuditSink}
use personal_finance_public.Identity.Credentials.Rules.{credential_rules}
use personal_finance_public.Identity.Repository.{
  optional_user, optional_space, has_any_user, add_user, add_space, user_by_username, only_row,
  only_user, space_for_user, update_user, revoke_sessions,
}
use personal_finance_public.Identity.Sessions.{
  at_or_now, authenticate, create, live_session, validate_csrf, csrf_for_session, revoke_found,
  revoke,
}
use personal_finance_public.Identity.Service.{
  establish, bootstrap, space_if, check_credentials, finish_login, login, logout, rotate_for,
  rotate, reset_credentials,
}

ruleset rules = (credential_rules, identity_rules, SameLedger-Grows, Grows-preorder)

optional_user-Grows : (o : Option UserRecord) → Keeps Grows (optional_user o)
optional_user-Grows none = search rules
optional_user-Grows (some r) = search rules

optional_space-Grows : (o : Option SpaceRecord) → Keeps Grows (optional_space o)
optional_space-Grows none = search rules
optional_space-Grows (some r) = search rules

only_row-Grows : (rows : List UserRecord) → Keeps Grows (only_row rows)
only_row-Grows [] = search rules
only_row-Grows (r ∷ []) = search rules
only_row-Grows (r ∷ s ∷ rest) = search rules

user_by_username-Grows : (n : String) → Keeps Grows (user_by_username n)
unfolding user_by_username
user_by_username-Grows n = search (rules, optional_user-Grows)

only_user-Grows : Keeps Grows only_user
unfolding only_user
only_user-Grows = search (rules, only_row-Grows)

space_for_user-Grows : (u : String) → Keeps Grows (space_for_user u)
unfolding space_for_user
space_for_user-Grows u = search (rules, optional_space-Grows)

space_if-Grows : (b : Bool) (u : Option User) → Keeps Grows (space_if b u)
space_if-Grows b none = search rules
space_if-Grows b (some u) = search (rules, space_for_user-Grows)

ruleset repository_rules =
    (rules, user_by_username-Grows, only_user-Grows, space_for_user-Grows, space_if-Grows)

module _ (e : IdentityEnv) where
  at_or_now-Grows : (at : Option ℕ) → Keeps Grows (at_or_now e at)
  at_or_now-Grows none = search rules
  at_or_now-Grows (some t) = search rules

  pub authenticate-Grows : (token : String) (at : Option ℕ) → Keeps Grows (authenticate e token at)
  unfolding authenticate
  authenticate-Grows token at = search (rules, at_or_now-Grows) depth 8

  live_session-Grows : (o : Option SessionRecord) → Keeps Grows (live_session e o)
  live_session-Grows none = search rules
  live_session-Grows (some s) = search rules depth 8

  pub validate_csrf-Grows : (token csrf : String) → Keeps Grows (validate_csrf e token csrf)
  unfolding validate_csrf
  validate_csrf-Grows token csrf = search (rules, live_session-Grows) depth 8

  pub csrf_for_session-Grows : (token : String) → Keeps Grows (csrf_for_session e token)
  unfolding csrf_for_session
  csrf_for_session-Grows token = search (rules, live_session-Grows) depth 8

  create-Grows : (u s : String) (now : ℕ) → Keeps Grows (create e u s now)
  unfolding create
  create-Grows u s now = search repository_rules depth 16

  revoke_found-Grows : (t : ℕ) (o : Option SessionRecord) → Keeps Grows (revoke_found e t o)
  revoke_found-Grows t none = search rules
  revoke_found-Grows t (some s) = search rules depth 8

  revoke-Grows : (token : String) (t : ℕ) → Keeps Grows (revoke e token t)
  unfolding revoke
  revoke-Grows token t = search (rules, revoke_found-Grows) depth 8

  pub bootstrap-Grows :
      (username password name : String) → Keeps Grows (bootstrap e username password name)
  unfolding bootstrap establish has_any_user add_user add_space
  bootstrap-Grows username password name = search rules depth 24

  module _ (sink : AuthenticationAuditSink) where
    sink-Grows :
        (a r : String) (u s : Option String) (c : String)
        → Keeps Grows (sink.record_authentication a r u s c)
    sink-Grows a r u s c = Keeps-AuditOnly-Grows _ (sink.audit_only a r u s c)

    finish_login-Grows :
        (c : String) (checked : Option User × Option PersonalSpace)
        → Keeps Grows (finish_login e sink c checked)
    unfolding finish_login
    finish_login-Grows c (some u, some s) = search (rules, create-Grows, sink-Grows) depth 12
    finish_login-Grows c (some u, none) = search (rules, sink-Grows) depth 8
    finish_login-Grows c (none, some s) = search (rules, sink-Grows) depth 8
    finish_login-Grows c (none, none) = search (rules, sink-Grows) depth 8

    pub login-Grows :
        (username password c : String) → Keeps Grows (login e sink username password c)
    unfolding login check_credentials
    login-Grows username password c = search (repository_rules, finish_login-Grows) depth 16

    pub logout-Grows : (token u s c : String) → Keeps Grows (logout e sink token u s c)
    unfolding logout
    logout-Grows token u s c = search (rules, revoke-Grows, sink-Grows) depth 12

    pub reset_credentials-Grows :
        (password c : String) → Keeps Grows (reset_credentials e sink password c)
    unfolding reset_credentials rotate rotate_for update_user revoke_sessions
    reset_credentials-Grows password c = search (repository_rules, sink-Grows) depth 28
