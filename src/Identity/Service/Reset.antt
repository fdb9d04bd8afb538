-- ===== src/Identity/Service/Reset.antt =====
-- What a credential reset does to the sessions.
use personal_finance_public.Base.{
  String, ℕ, Bool, true, ◌||◌, not, ◌≡◌, ◌≢◌, refl, ap, ◌∙◌, sym, Option, none, some, is_some, List,
  [], ◌∷◌, find?, map, All, ◌==◌, ==_refl, arith, ok, Bool-cases, inl, inr, bootstrap_required,
}
use personal_finance_public.Storage.Exec.{lift, or_raise, ◌>>=◌}
use personal_finance_public.Storage.Schema.{Db, UserRecord, SessionRecord}
use personal_finance_public.Storage.Schema.IdentityRows.{revoked_if, revoke_user_sessions}
use personal_finance_public.Storage.World.{
  World, Exit, committed, utc_now, unit_of_work, execute, query,
}
use personal_finance_public.Storage.World.Runs.{bind-ok, bind-next, unit_of_work-ok}
use personal_finance_public.Identity.{User, PersonalSpace, with_password_hash}
use personal_finance_public.Identity.Credentials.{IdentityEnv, AuthenticationAuditSink, hash}
use personal_finance_public.Identity.Repository.{
  to_user, only_row, only_user, space_for_user, update_user, revoke_sessions,
}
use personal_finance_public.Identity.Sessions.{AuthenticatedPrincipal, authenticate}
use personal_finance_public.Identity.Sessions.Authentication.{authenticate-IsPrincipalOf}
use personal_finance_public.Identity.Service.{rotate_for, rotate, reset_credentials}

-- Every session of the user is revoked.
unfoldable pub IsClosed : String → SessionRecord → Type 0
IsClosed user_id s = (not (s.user_id == user_id) || is_some s.revoked_at) ≡ true

revoked-IsClosed :
    (user_id : String) (t : ℕ) (rows : List SessionRecord)
    → All (IsClosed user_id) (map (revoked_if user_id t) rows)
unfolding IsClosed
revoked-IsClosed user_id t [] = tt
revoked-IsClosed user_id t (s ∷ rows) = (ground arith, revoked-IsClosed user_id t rows)

found-IsClosed :
    (user_id : String) (test : SessionRecord → Bool) (rows : List SessionRecord) (s : SessionRecord)
    → All (IsClosed user_id) rows
    → find? test rows ≡ some s
    → IsClosed user_id s
found-IsClosed user_id test [] s all h = absurd (ground (arith, h))
found-IsClosed user_id test (x ∷ rows) s (closed, all) h = elim (Bool-cases (test x)) [
  | inl here ↦ let same : x ≡ s = ground (arith, here, h) in rw (sym same) closed
  | inr later ↦ found-IsClosed user_id test rows s all (rw later at h)
]

only_row-ok :
    (rows : List UserRecord) (w : World) {u : User}
    → (only_row rows w).0 ≡ ok (some u)
    → (r : UserRecord) × (rows ≡ r ∷ []) × (to_user r ≡ ok u)
only_row-ok [] w h = absurd (ground (arith, h))
only_row-ok (r ∷ []) w h = (
  r,
  refl,
  let (a, made, e) = bind-ok (lift (to_user r)) _ w h in cc (made, ap (λ x. x.0) (sym e) ∙ h),
)
only_row-ok (r ∷ s ∷ rest) w h = absurd (ground (arith, h))

or_raise-ok :
    {A : Type 0} (o : Option A) (w : World) {a : A}
    → (or_raise o bootstrap_required w).0 ≡ ok a
    → (o ≡ some a) × ((or_raise o bootstrap_required w).1 ≡ w)
or_raise-ok none w h = absurd (ground (arith, h))
or_raise-ok (some b) w h = (cc, refl)

-- The one user whose credentials were reset, and what is left of the sessions.
pub record IsReset (u : User) (db db' : Db) : Type 0 where
  pub only : (r : UserRecord) × (db.users ≡ r ∷ []) × (to_user r ≡ ok u)
  pub closed : All (IsClosed u.id) db'.sessions

module _ (e : IdentityEnv) (sink : AuthenticationAuditSink) where
  rotate_for-IsClosed :
      (new_password : String) (t : ℕ) (u : User) (space : PersonalSpace) (w : World)
      {out : Exit (User × PersonalSpace)}
      → (rotate_for e sink new_password t u space w).0 ≡ ok out
      → (out ≡ committed (u, space))
        × All (IsClosed u.id) (rotate_for e sink new_password t u space w).1.db.sessions
  unfolding rotate_for revoke_sessions revoke_user_sessions execute
  rotate_for-IsClosed new_password t u space w h =
      let (hashed, _, h1, e1) = bind-next (hash e new_password) _ w h in
      let w1 = (hash e new_password w).1 in
      let (rotated, _, h2, e2) = bind-next (lift (with_password_hash u hashed)) _ w1 h1 in
      let (_, _, h3, e3) = bind-next (update_user rotated) _ w1 h2 in
      let w2 = (update_user rotated w1).1 in
      let (_, _, h4, e4) = bind-next (execute (revoke_user_sessions u.id t)) _ w2 h3 in
      let ended = ap (λ x. x.db.sessions) (e1 ∙ e2 ∙ e3 ∙ e4) in
      (ground (arith, h4), rw ended (revoked-IsClosed u.id t w2.db.sessions))

  rotate-IsReset :
      (new_password : String) (t : ℕ) (w : World) {out : Exit (User × PersonalSpace)}
      → (rotate e sink new_password t w).0 ≡ ok out
      → (a : User × PersonalSpace) × (out ≡ committed a)
        × IsReset a.0 w.db (rotate e sink new_password t w).1.db
  unfolding rotate only_user
  rotate-IsReset new_password t w h =
      let (found, first, h1, e1) = bind-next (query (λ db. db.users) >>= only_row) _ w h in
      let w1 = ((query (λ db. db.users) >>= only_row) w).1 in
      let (u, present, h2, e2) = bind-next (or_raise found bootstrap_required) _ w1 h1 in
      let w2 = (or_raise found bootstrap_required w1).1 in
      let (owned, _, h3, e3) = bind-next (space_for_user u.id) _ w2 h2 in
      let w3 = (space_for_user u.id w2).1 in
      let (space, _, h4, e4) = bind-next (or_raise owned bootstrap_required) _ w3 h3 in
      let w4 = (or_raise owned bootstrap_required w3).1 in
      let (done, closed) = rotate_for-IsClosed new_password t u space w4 h4 in
      let (some_user, _) = or_raise-ok found w1 present in
      let (rows, q, read, _) = bind-next (query (λ db. db.users)) only_row w first in
      let (r, one, made) = only_row-ok rows w (read ∙ ap ok some_user) in
      let ended = ap (λ x. x.db.sessions) (e1 ∙ e2 ∙ e3 ∙ e4) in
      ((u, space), done, record { only = (r, cc (q, one), made); closed = rw ended closed })

  unit-IsReset :
      (new_password : String) (t : ℕ) (w : World) {pair : User × PersonalSpace}
      → (unit_of_work (rotate e sink new_password t) w).0 ≡ ok pair
      → IsReset pair.0 w.db (unit_of_work (rotate e sink new_password t) w).1.db
  unit-IsReset new_password t w {pair} h =
      let body = rotate e sink new_password t in
      elim (unit_of_work-ok body w h) [
        | inl (ended, kept) ↦
            let (a, out, reset) = rotate-IsReset new_password t w ended in
            let same : pair ≡ a = ground (arith, out) in rw (same, ap (λ x. x.db) kept) reset
        | inr (ended, _) ↦
            let (a, out, _) = rotate-IsReset new_password t w ended in absurd (ground (arith, out))
      ]

  closed-authenticate :
      (user_id token : String) (at : Option ℕ) (w : World) (p : AuthenticatedPrincipal)
      → All (IsClosed user_id) w.db.sessions
      → (authenticate e token at w).0 ≡ ok (some p)
      → p.user_id ≢ user_id
  unfolding IsClosed
  closed-authenticate user_id token at w p closed h same =
      let (s, found, live) = authenticate-IsPrincipalOf e token at w h in
      let own : s.user_id ≡ user_id = sym live.its_user ∙ same in
      let revoked = found-IsClosed user_id _ w.db.sessions s closed found in
      ground (arith, revoked, live.not_revoked, ap (λ x. x == user_id) own, ==_refl user_id)

  -- After a credential reset that succeeds there was exactly one user, and every session of that
  -- user is revoked.
  pub reset_credentials-IsReset :
      (new_password correlation_id : String) (w : World)
      → (reset_credentials e sink new_password correlation_id w).0 ≡ ok tt
      → (u : User) × IsReset u w.db (reset_credentials e sink new_password correlation_id w).1.db
  unfolding reset_credentials
  reset_credentials-IsReset new_password correlation_id w h =
      let (now, _, h1, e1) = bind-next (utc_now e.env) _ w h in
      let w1 = (utc_now e.env w).1 in
      let body = rotate e sink new_password now in
      let (pair, done, h2, e2) = bind-next (unit_of_work body) _ w1 h1 in
      let reset = unit-IsReset new_password now w1 done in
      let w2 = (unit_of_work body w1).1 in
      let kept = ap (λ d. d.sessions) ((sink.audit_only _ _ _ _ _).at w2).only_audit in
      let rows = ap (λ x. x.db.sessions) (e1 ∙ e2) ∙ kept in
      (pair.0, record { only = reset.only; closed = rw rows reset.closed })

  -- After a credential reset that succeeds, a check of any token, at any time, returns no principal
  -- with the identifier of the user whose credentials were reset.
  pub reset_credentials-authenticate :
      (new_password correlation_id token : String) (at : Option ℕ) (w w' : World) (u : User)
      (r : UserRecord) (p : AuthenticatedPrincipal)
      → w.db.users ≡ r ∷ []
      → to_user r ≡ ok u
      → (reset_credentials e sink new_password correlation_id w).0 ≡ ok tt
      → w'.db ≡ (reset_credentials e sink new_password correlation_id w).1.db
      → p.user_id ≡ u.id
      → (authenticate e token at w').0 ≢ ok (some p)
  reset_credentials-authenticate new_password correlation_id token at w w' u r p one made h same own
        found =
      let (v, reset) = reset_credentials-IsReset new_password correlation_id w h in
      let (r', only, read) = reset.only in
      let row : r' ≡ r = ground (arith, only, one) in
      let user : v ≡ u = cc (row, read, made) in
      closed-authenticate u.id token at w' p (rw (same, sym user) reset.closed) found own
