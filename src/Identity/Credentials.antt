-- ===== src/Identity/Credentials.antt =====
-- What the identity component takes from outside, and backend/app/identity/adapters/passwords.py.
pub mod Rules
use personal_finance_public.Base.{⊤, String, ℕ, Bool, Option, ok, value_error}
use personal_finance_public.Base.Text
use personal_finance_public.Storage.Exec.{Exec, guard, ◌>>=◌, ◌>>◌}
use personal_finance_public.Storage.World.{Env, World, count_call}
use personal_finance_public.Storage.World.Rules.{Keeps}
use personal_finance_public.Ledger.Audit.{AuditOnly}

-- Argon2 with its random salts and the check that is false where the library raises, random
-- identifiers and tokens, the HMAC of a session token in the CSRF context, the hash that stands in
-- for an unknown user, and the lifetime of a session, which is positive.
pub record IdentityEnv : Type 0 where
  pub env : Env
  pub uuid4_str : ℕ → String
  pub argon2_hash : String → ℕ → String
  pub argon2_verify : String → String → Bool
  pub random_token : ℕ → String
  pub csrf_hmac : String → String
  pub dummy_password_hash : String
  pub lifetime : ℕ

-- `AuthenticationAuditSink`: a sink may refuse an event, and writes nothing but audit events.
pub record AuthenticationAuditSink : Type 0 where
  pub record_authentication :
      String → String → Option String → Option String → String → Exec World ⊤
  pub audit_only :
      (action result : String) (actor_id space_id : Option String) (correlation_id : String)
      → Keeps AuditOnly (record_authentication action result actor_id space_id correlation_id)

module _ (e : IdentityEnv) where
  -- `str(uuid4())`
  abbrev pub new_id : Exec World String
  new_id w = (ok (e.uuid4_str w.calls), count_call w)

  -- `secrets.token_urlsafe(SESSION_TOKEN_BYTES)`
  abbrev pub token_urlsafe : Exec World String
  token_urlsafe w = (ok (e.random_token w.calls), count_call w)

  -- `_digest`
  abbrev pub digest : String → String
  digest value = e.env.sha256_hexdigest value

  abbrev pub salted : String → Exec World String
  salted password w = (ok (e.argon2_hash password w.calls), count_call w)

  -- `Argon2PasswordHasher.hash`
  unfoldable pub hash : String → Exec World String
  hash password = do guard (Text.is_empty password) value_error; salted password

  -- `Argon2PasswordHasher.verify`
  abbrev pub verify : String → String → Bool
  verify password password_hash = e.argon2_verify password_hash password
