-- ===== src/Identity/Sessions/Authentication.antt =====
-- Which tokens authenticate.
use personal_finance_public.Base.{
  String, ℕ, Bool, true, false, ◌≡◌, refl, ◌∙◌, sym, Option, none, some, is_some, List, [], ◌∷◌,
  leb, arith, Result, ok, err, Bool-cases, inl, inr,
}
use personal_finance_public.Base.Text
use personal_finance_public.Storage.Table.{lookup, key-lookup}
use personal_finance_public.Storage.Exec.{◌>>=◌}
use personal_finance_public.Storage.Schema.{Db, UserRecord, SpaceRecord, SessionRecord, user_keyed}
use personal_finance_public.Storage.World.{World}
use personal_finance_public.Identity.Credentials.{IdentityEnv}
use personal_finance_public.Identity.Sessions.{
  AuthenticatedPrincipal, is_live, principal_of, principal_if, joined_user, joined_session,
  session_of, resolve, authenticate,
}

-- The principal of a session that is live when it is checked.
pub record IsPrincipalOf (s : SessionRecord) (checked_at : ℕ) (p : AuthenticatedPrincipal)
    : Type 0 where
  pub not_revoked : s.revoked_at ≡ none
  pub not_expired : leb s.expires_at checked_at ≡ false
  pub its_user : p.user_id ≡ s.user_id

not_some : {A : Type 0} (o : Option A) → is_some o ≡ false → o ≡ none
not_some none h = refl
not_some (some a) h = cc

principal-user :
    (user : UserRecord) (spaces : List SpaceRecord) {p : AuthenticatedPrincipal}
    → principal_of user spaces ≡ ok (some p)
    → p.user_id ≡ user.id
principal-user user [] h = absurd (ground (arith, h))
principal-user user (s ∷ []) h = ground arith
principal-user user (s ∷ t ∷ rest) h = absurd (ground (arith, h))

principal_if-ok :
    (live : Bool) (r : Result (Option AuthenticatedPrincipal)) {p : AuthenticatedPrincipal}
    → principal_if live r ≡ ok (some p)
    → (live ≡ true) × (r ≡ ok (some p))
principal_if-ok live (err e) h = absurd (ground (arith, h))
principal_if-ok live (ok none) h = absurd (ground (arith, h))
principal_if-ok true (ok (some q)) h = (refl, h)
principal_if-ok false (ok (some q)) h = absurd (ground (arith, h))

user-IsPrincipalOf :
    (s : SessionRecord) (t : ℕ) (db : Db) (o : Option UserRecord) {p : AuthenticatedPrincipal}
    → ((u : UserRecord) → o ≡ some u → u.id ≡ s.user_id)
    → joined_user s t db o ≡ ok (some p)
    → IsPrincipalOf s t p
user-IsPrincipalOf s t db none key h = absurd (ground (arith, h))
user-IsPrincipalOf s t db (some u) key h =
    let (live, found) = principal_if-ok (is_live s t) _ h in
    record {
      not_revoked = not_some s.revoked_at (ground (arith, live));
      not_expired = ground (arith, live);
      its_user = principal-user u _ found ∙ key u refl;
    }

resolve-IsPrincipalOf :
    (t : ℕ) (db : Db) (o : Option SessionRecord) {p : AuthenticatedPrincipal}
    → joined_session t db o ≡ ok (some p)
    → (s : SessionRecord) × (o ≡ some s) × IsPrincipalOf s t p
resolve-IsPrincipalOf t db none h = absurd (ground (arith, h))
resolve-IsPrincipalOf t db (some s) h = (
  s,
  refl,
  user-IsPrincipalOf s t db (lookup s.user_id db.users)
      (λ u found. key-lookup s.user_id db.users found) h,
)

-- The time that `authenticate` checks: the one it is given, or the clock.
unfoldable pub checked_time : IdentityEnv → Option ℕ → World → ℕ
checked_time e none w = e.env.now w.calls
checked_time e (some t) w = t

pub authenticate-resolve :
    (e : IdentityEnv) (token : String) (at : Option ℕ) (w : World)
    → Text.is_empty token ≡ false
    → (authenticate e token at w).0 ≡ resolve e token (checked_time e at w) w.db
unfolding authenticate checked_time ◌>>=◌
authenticate-resolve e token none w h = rw h refl
authenticate-resolve e token (some t) w h = rw h refl

-- A principal is returned only for the token of a stored session that is neither revoked nor expired
-- at the time of the check, and it is the user of that session.
pub authenticate-IsPrincipalOf :
    (e : IdentityEnv) (token : String) (at : Option ℕ) (w : World) {p : AuthenticatedPrincipal}
    → (authenticate e token at w).0 ≡ ok (some p)
    → (s : SessionRecord) × (session_of e token w.db ≡ some s)
      × IsPrincipalOf s (checked_time e at w) p
unfolding authenticate resolve
authenticate-IsPrincipalOf e token at w h = elim (Bool-cases (Text.is_empty token)) [
  | inl empty ↦ absurd (ground (arith, empty, h))
  | inr present ↦
      resolve-IsPrincipalOf (checked_time e at w) w.db (session_of e token w.db)
        (sym (authenticate-resolve e token at w present) ∙ h)
]
