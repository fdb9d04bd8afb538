-- ===== src/Identity/Sessions/Grants.antt =====
-- What a new session is good for.
use personal_finance_public.Base.{
  ⊤, String, ℕ, ◌+◌, false, not, ◌≡◌, refl, ap, ◌∙◌, sym, Option, none, some, [], ◌∷◌, filter, leb,
  ◌==◌, ==_refl, arith, ok, inl, inr, runtime_error,
}
use personal_finance_public.Base.Text
use personal_finance_public.Storage.Table.{lookup}
use personal_finance_public.Storage.Exec.{Exec, pure, ◌>>=◌, ◌>>◌}
use personal_finance_public.Storage.Schema.{Db, UserRecord, SpaceRecord, SessionRecord, user_keyed}
use personal_finance_public.Storage.Schema.IdentityRows.{insert_session}
use personal_finance_public.Storage.World.{World, Exit, committed, execute, unit_of_work}
use personal_finance_public.Storage.World.Rules.{Keeps, keeps_rules}
use personal_finance_public.Storage.World.Runs.{bind-next, execute-ok, guard-ok, unit_of_work-ok}
use personal_finance_public.Ledger.Calls.Clean.{Unchanged, Unchanged-preorder}
use personal_finance_public.Identity.Credentials.{IdentityEnv, new_id, token_urlsafe, digest}
use personal_finance_public.Identity.Repository.{optional_space, space_for_user}
use personal_finance_public.Identity.Sessions.{SessionGrant, owns, resolve, authenticate, create}
use personal_finance_public.Identity.Sessions.Authentication.{checked_time, authenticate-resolve}

optional_space-Unchanged : (o : Option SpaceRecord) → Keeps Unchanged (optional_space o)
optional_space-Unchanged none = search (keeps_rules, Unchanged-preorder)
optional_space-Unchanged (some r) = search (keeps_rules, Unchanged-preorder)

space_for_user-Unchanged : (u : String) → Keeps Unchanged (space_for_user u)
unfolding space_for_user
space_for_user-Unchanged u = search (keeps_rules, Unchanged-preorder, optional_space-Unchanged)

-- The row of a grant is the newest session, and no other table changed.
record IsGranted (e : IdentityEnv) (user_id : String) (g : SessionGrant) (db db' : Db)
    : Type 0 where
  row : SessionRecord
  added : db'.sessions ≡ row ∷ db.sessions
  users : db'.users ≡ db.users
  spaces : db'.spaces ≡ db.spaces
  its_token : row.token_hash ≡ digest e g.session_token
  its_user : row.user_id ≡ user_id
  its_expiry : row.expires_at ≡ g.expires_at
  open_row : row.revoked_at ≡ none

insert_session-rows :
    (r : SessionRecord) (db : Db) {db' : Db}
    → insert_session r db ≡ ok db'
    → (db'.sessions ≡ r ∷ db.sessions) × (db'.users ≡ db.users) × (db'.spaces ≡ db.spaces)
unfolding insert_session
insert_session-rows r db h = (ground arith, ground arith, ground arith)

module _ (e : IdentityEnv) (u s : String) (now : ℕ) where
  session_row : String → String → SessionRecord
  session_row token id = record {
    id = id;
    user_id = u;
    token_hash = digest e token;
    csrf_token_hash = digest e (e.csrf_hmac token);
    expires_at = now + e.lifetime;
    created_at = now;
    revoked_at = none;
  }

  store : String → Exec World (Exit ⊤)
  store token = do
    id ← new_id e
    execute (insert_session (session_row token id))
    pure (committed tt)

  store-rows :
      (token : String) (w : World)
      → (unit_of_work (store token) w).0 ≡ ok tt
      → (id : String) × ((unit_of_work (store token) w).1.db.sessions
          ≡ session_row token id ∷ w.db.sessions)
        × ((unit_of_work (store token) w).1.db.users ≡ w.db.users)
        × ((unit_of_work (store token) w).1.db.spaces ≡ w.db.spaces)
  unfolding store
  store-rows token w h = elim (unit_of_work-ok (store token) w h) [
    | inl (ended, kept) ↦
        let (id, _, h1, e1) = bind-next (new_id e) _ w ended in
        let w1 = (new_id e w).1 in
        let statement = insert_session (session_row token id) in
        let (_, done, h2, e2) = bind-next (execute statement) _ w1 h1 in
        let (db', accepted, moved) = execute-ok statement w1 done in
        let (sessions, users, spaces) = insert_session-rows (session_row token id) w.db accepted in
        let all = ap (λ x. x.db) (kept ∙ e1 ∙ e2 ∙ moved) in
        (
          id,
          ap (λ d. d.sessions) all ∙ sessions,
          ap (λ d. d.users) all ∙ users,
          ap (λ d. d.spaces) all ∙ spaces,
        )
    | inr (ended, _) ↦
        let (id, _, h1, _) = bind-next (new_id e) _ w ended in
        let w1 = (new_id e w).1 in
        let (_, _, h2, _) = bind-next (execute (insert_session (session_row token id))) _ w1 h1 in
        absurd (ground (arith, h2))
  ]

  create-IsGranted :
      (w : World) {g : SessionGrant}
      → (create e u s now w).0 ≡ ok g
      → IsGranted e u g w.db (create e u s now w).1.db
  unfolding create store session_row
  create-IsGranted w {g} h =
      let (space, _, h1, e1) = bind-next (space_for_user u) _ w h in
      let w1 = (space_for_user u w).1 in
      let (_, e2) = guard-ok (not (owns space s)) runtime_error _ w1 h1 in
      let h2 = ap (λ x. x.0) (sym e2) ∙ h1 in
      let (token, _, h3, e3) = bind-next (token_urlsafe e) _ w1 h2 in
      let w2 = (token_urlsafe e w1).1 in
      let (_, stored, h4, e4) = bind-next (unit_of_work (store token)) _ w2 h3 in
      let (id, sessions, users, spaces) = store-rows token w2 stored in
      let same = ((space_for_user-Unchanged u).at w).same in
      let all = ap (λ x. x.db) (e1 ∙ ap (λ x. x.1) e2 ∙ e3 ∙ e4) in
      let granted : g.session_token ≡ token = ground (arith, h4) in
      let expires : g.expires_at ≡ now + e.lifetime = ground (arith, h4) in
      record {
        row = session_row token id;
        added =
            ap (λ d. d.sessions) all ∙ sessions ∙ ap (λ d. session_row token id ∷ d.sessions) same;
        users = ap (λ d. d.users) all ∙ users ∙ ap (λ d. d.users) same;
        spaces = ap (λ d. d.spaces) all ∙ spaces ∙ ap (λ d. d.spaces) same;
        its_token = ap (digest e) (sym granted);
        its_user = refl;
        its_expiry = sym expires;
        open_row = refl;
      }

  -- A grant authenticates: its token, if not empty, resolves to the user and to the one space that
  -- the user owns at every time before it expires, in any world with the database that the grant left.
  pub create-authenticate :
      (w w' : World) (g : SessionGrant) (t : ℕ) (user : UserRecord) (space : SpaceRecord)
      → (create e u s now w).0 ≡ ok g
      → w'.db ≡ (create e u s now w).1.db
      → Text.is_empty g.session_token ≡ false
      → leb g.expires_at t ≡ false
      → lookup u w.db.users ≡ some user
      → filter (λ x. x.owner_user_id == user.id) w.db.spaces ≡ space ∷ []
      → (authenticate e g.session_token (some t) w').0
        ≡ ok (some (record { user_id = user.id; space_id = space.id; username = user.username }))
  unfolding resolve checked_time
  create-authenticate w w' g t user space h same present before known owned =
      let granted = create-IsGranted w h in
      let rows = ap (λ d. d.sessions) same ∙ granted.added in
      let users = ap (λ d. d.users) same ∙ granted.users in
      let spaces = ap (λ d. d.spaces) same ∙ granted.spaces in
      authenticate-resolve e g.session_token (some t) w' present
      ∙ rw
          (
            rows,
            granted.its_token,
            ==_refl (digest e g.session_token),
            users,
            granted.its_user,
            known,
            spaces,
            owned,
            granted.open_row,
            granted.its_expiry,
            before,
          )
          refl
