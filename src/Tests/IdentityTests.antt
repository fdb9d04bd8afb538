-- ===== src/Tests/IdentityTests.antt =====
-- The identity component's properties, and those of the whole composition, at concrete runs.
use personal_finance_public.Identity.Sessions.{
  SessionGrant, create, AuthenticatedPrincipal, session_of, authenticate, revoke, resolve,
}
use personal_finance_public.Identity.Sessions.Grants.{create-authenticate}
use personal_finance_public.Storage.Schema.IdentityRows.{
  insert_session, insert_space, insert_user, update_user_row, revoke_user_sessions,
}
use personal_finance_public.Identity.Repository.{
  space_for_user, to_space, add_space, add_user, has_any_user, update_user, revoke_sessions,
  only_user, to_user,
}
use personal_finance_public.Identity.{new_space, require_text, with_password_hash, new_user, User}
use personal_finance_public.Storage.World.{unit_of_work, execute, World}
use personal_finance_public.Identity.Service.{
  establish, rotate_for, rotate, bootstrap, reset_credentials,
}
use personal_finance_public.Audit.Record.{record_of}
use personal_finance_public.Storage.Schema.Statements.{insert_audit_event}
use personal_finance_public.Audit.Repository.{append}
use personal_finance_public.Audit.Event.{
  from_draft, is_sorted, new_event_draft, result_of, action_of,
}
use personal_finance_public.Audit.Service.{append_in_transaction, append_durable}
use personal_finance_public.Audit.Bindings.{record_authentication}
use personal_finance_public.Storage.Table.{update, lookup}
use personal_finance_public.Identity.Credentials.{hash, IdentityEnv, AuthenticationAuditSink}
use personal_finance_public.Base.{◌≡◌, ◌≢◌, refl, true, none, some, List, [], ◌∷◌, ok, ◌==◌}
use personal_finance_public.Storage.CanonicalJson.{decimal}
use personal_finance_public.Storage.Exec.{◌>>=◌}
use personal_finance_public.Storage.Schema.{UserRecord, SessionRecord, fresh, transaction_keyed}
use personal_finance_public.Storage.Schema.Soundness.{IsSound, Kept}
use personal_finance_public.Identity.Sessions.Authentication.{
  IsPrincipalOf, checked_time, authenticate-IsPrincipalOf,
}
use personal_finance_public.Identity.Sessions.Revocation.{revoke-authenticate}
use personal_finance_public.Identity.Service.Reset.{reset_credentials-authenticate}
use personal_finance_public.Identity.Service.Bootstrap.{IsFirst, bootstrap-IsFirst}
use personal_finance_public.Audit.Bindings.Sinks.{authentication_sink}
use personal_finance_public.System.{
  Request, ledger, bootstrap as bootstrap_request, login, serve_all,
}
use personal_finance_public.System.Soundness.{serve_all-IsSound, serve_all-Kept}
use personal_finance_public.Tests.History.{history_found, with_history-IsSound}
use personal_finance_public.Tests.Sample.{env, home, to_savings, reversed_row, with_history}
use personal_finance_public.Base.Text
use personal_finance_public.Ledger.Calls

abbrev identity : IdentityEnv
identity = record {
  env = record env { sha256_hexdigest = λ token. Text.append "digest of " token };
  uuid4_str = λ n. Text.append "uuid" (decimal n);
  argon2_hash = λ password n. Text.append "hash of " password;
  argon2_verify = λ password_hash password. password_hash == Text.append "hash of " password;
  random_token = λ n. Text.append "token" (decimal n);
  csrf_hmac = λ token. Text.append "csrf of " token;
  dummy_password_hash = "hash of dummy";
  lifetime = 1000;
}

abbrev audit : AuthenticationAuditSink
audit = authentication_sink identity.env

abbrev me : UserRecord
me = record {
  id = "me";
  username = "me";
  password_hash = "hash of secret";
  credential_version = 1;
  created_at = 0;
}

abbrev operator : User
operator = record {
  id = "me";
  username = "me";
  password_hash = "hash of secret";
  credential_version = 1;
  created_at = 0;
  active = true;
}

abbrev mine : SessionRecord
mine = record {
  id = "s1";
  user_id = "me";
  token_hash = "digest of t1";
  csrf_token_hash = "digest of csrf of t1";
  expires_at = 1000;
  created_at = 0;
  revoked_at = none;
}

abbrev logged_in : World
logged_in = record {
  db = record fresh { users = me ∷ []; spaces = home ∷ []; sessions = mine ∷ [] };
  calls = 5;
}

abbrev principal_me : AuthenticatedPrincipal
principal_me = record { user_id = "me"; space_id = "home"; username = "me" }

me_authenticates : (authenticate identity "t1" (some 999) logged_in).0 ≡ ok (some principal_me)
unfolding authenticate ◌>>=◌ ◌==◌ Text.append resolve lookup
me_authenticates = refl

authenticate-IsPrincipalOf_example :
    (s : SessionRecord) × (session_of identity "t1" logged_in.db ≡ some s)
    × IsPrincipalOf s (checked_time identity (some 999) logged_in) principal_me
authenticate-IsPrincipalOf_example =
    authenticate-IsPrincipalOf identity "t1" (some 999) logged_in me_authenticates

revoke-authenticate_example :
    (authenticate identity "t1" (some 8) (revoke identity "t1" 7 logged_in).1).0
    ≢ ok (some principal_me)
revoke-authenticate_example =
    revoke-authenticate identity "t1" 7 logged_in (revoke identity "t1" 7 logged_in).1 (some 8)
      principal_me refl

reset_succeeds : (reset_credentials identity audit "new secret" "c-1" logged_in).0 ≡ ok tt
unfolding reset_credentials ◌>>=◌ unit_of_work rotate only_user to_user new_user require_text
    Text.strip Text.rstrip Text.lstrip Text.is_space space_for_user ◌==◌ to_space new_space
    rotate_for hash revoke_sessions update_user with_password_hash revoke_user_sessions
    update_user_row update execute Text.append authentication_sink record_authentication action_of
    result_of new_event_draft is_sorted append_durable append_in_transaction from_draft append
    insert_audit_event record_of lookup decimal
reset_succeeds = refl

me_stored : to_user me ≡ ok operator
unfolding to_user new_user require_text Text.strip Text.rstrip Text.lstrip Text.is_space
me_stored = refl

reset_credentials-authenticate_example :
    (authenticate identity "t1"
      (some 8)
      (reset_credentials identity audit "new secret" "c-1" logged_in).1).0
    ≢ ok (some principal_me)
reset_credentials-authenticate_example =
    reset_credentials-authenticate identity audit "new secret" "c-1" "t1" (some 8) logged_in
      (reset_credentials identity audit "new secret" "c-1" logged_in).1 operator me principal_me
      refl me_stored reset_succeeds refl refl

bootstrap_succeeds :
    (bootstrap identity " me " "secret" "Home" (record { db = fresh; calls = 0 })).0
    ≡ ok (record { user_id = "uuid1"; space_id = "uuid3"; username = "me" })
unfolding bootstrap ◌>>=◌ new_user require_text Text.strip Text.rstrip Text.lstrip Text.append
    Text.is_space new_space unit_of_work establish has_any_user add_user insert_user ◌==◌ add_space
    insert_space hash execute lookup decimal
bootstrap_succeeds = refl

bootstrap-IsFirst_example :
    IsFirst
      (record { user_id = "uuid1"; space_id = "uuid3"; username = "me" })
      fresh
      (bootstrap identity " me " "secret" "Home" (record { db = fresh; calls = 0 })).1.db
bootstrap-IsFirst_example =
    bootstrap-IsFirst identity " me " "secret" "Home" (record { db = fresh; calls = 0 })
      bootstrap_succeeds

abbrev requests : List Request
requests =
    bootstrap_request "me" "secret" "Home"
    ∷ login "me" "wrong" "c-2"
    ∷ ledger (Calls.create_transfer to_savings)
    ∷ []

serve_all-IsSound_example : IsSound (serve_all identity requests with_history).db
serve_all-IsSound_example = serve_all-IsSound identity requests with_history with_history-IsSound

serve_all-Kept_example :
    Kept reversed_row (lookup "old" (serve_all identity requests with_history).db.transactions)
serve_all-Kept_example =
    serve_all-Kept identity requests with_history "old" reversed_row history_found refl

abbrev granted : SessionGrant
granted = record {
  session_token = "token5";
  csrf_token = "csrf of token5";
  expires_at = 1010;
  principal_user_id = "me";
  principal_space_id = "home";
}

session_created : (create identity "me" "home" 10 logged_in).0 ≡ ok granted
unfolding create ◌>>=◌ space_for_user to_space new_space require_text unit_of_work execute
    insert_session lookup decimal ◌==◌ Text.append Text.strip Text.rstrip Text.lstrip Text.is_space
session_created = refl

create-authenticate_example :
    (authenticate identity "token5" (some 1009) (create identity "me" "home" 10 logged_in).1).0
    ≡ ok (some principal_me)
unfolding lookup ◌==◌
create-authenticate_example =
    create-authenticate identity "me" "home" 10 logged_in
      (create identity "me" "home" 10 logged_in).1 granted 1009 me home session_created refl refl
      refl refl refl
