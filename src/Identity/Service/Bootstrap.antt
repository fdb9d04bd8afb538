-- ===== src/Identity/Service/Bootstrap.antt =====
-- What a bootstrap that succeeds has done.
use personal_finance_public.Base.{
  ⊤, String, false, ◌≡◌, refl, ap, ◌∙◌, sym, List, [], ◌∷◌, arith, ok, inl, inr, >>=-eq-ok,
  bootstrap_already_completed,
}
use personal_finance_public.Storage.Exec.{lift}
use personal_finance_public.Storage.Schema.{Db, UserRecord, SpaceRecord}
use personal_finance_public.Storage.Schema.IdentityRows.{insert_user, insert_space}
use personal_finance_public.Storage.World.{
  World, Exit, committed, utc_now, unit_of_work, execute, query,
}
use personal_finance_public.Storage.World.Runs.{bind-next, execute-ok, guard-ok, unit_of_work-ok}
use personal_finance_public.Ledger.Calls.Clean.{Unchanged-preorder}
use personal_finance_public.Identity.{User, PersonalSpace, require_text, new_user, new_space}
use personal_finance_public.Base.Text
use personal_finance_public.Identity.Credentials.{IdentityEnv, new_id, hash}
use personal_finance_public.Base.Text.Strip.{strip-strip}
use personal_finance_public.Identity.Credentials.Rules.{Keeps-hash}
use personal_finance_public.Identity.Repository.{any_user, has_any_user, add_user, add_space}
use personal_finance_public.Identity.Sessions.{AuthenticatedPrincipal}
use personal_finance_public.Identity.Service.{establish, bootstrap}

insert_user-rows :
    (r : UserRecord) (db : Db) {db' : Db}
    → insert_user r db ≡ ok db'
    → (db'.users ≡ r ∷ db.users) × (db'.spaces ≡ db.spaces)
unfolding insert_user
insert_user-rows r db h = (ground arith, ground arith)

insert_space-rows :
    (r : SpaceRecord) (db : Db) {db' : Db}
    → insert_space r db ≡ ok db'
    → (db'.users ≡ db.users) × (db'.spaces ≡ r ∷ db.spaces)
unfolding insert_space
insert_space-rows r db h = (ground arith, ground arith)

-- The first user and the space that it owns, as a principal names them.
pub record IsFirst (p : AuthenticatedPrincipal) (db db' : Db) : Type 0 where
  pub none_before : db.users ≡ []
  pub user : UserRecord
  pub only : db'.users ≡ user ∷ []
  pub space : SpaceRecord
  pub added : db'.spaces ≡ space ∷ db.spaces
  pub owned : space.owner_user_id ≡ user.id
  pub its_user : p.user_id ≡ user.id
  pub its_space : p.space_id ≡ space.id
  pub its_name : p.username ≡ user.username

no_users : (db : Db) (rows : List UserRecord) → db.users ≡ rows → any_user db ≡ false → rows ≡ []
no_users db [] same h = refl
no_users db (u ∷ rows) same h = absurd (ground (arith, same, h))

principal : User → PersonalSpace → AuthenticatedPrincipal
principal u s = record { user_id = u.id; space_id = s.id; username = u.username }

establish-IsFirst :
    (e : IdentityEnv) (u : User) (s : PersonalSpace) (w : World) {out : Exit ⊤}
    → s.owner_user_id ≡ u.id
    → (establish e u s w).0 ≡ ok out
    → (out ≡ committed tt) × IsFirst (principal u s) w.db (establish e u s w).1.db
unfolding principal establish has_any_user add_user add_space
establish-IsFirst e u s w own h =
    let user : UserRecord = record {
      id = u.id;
      username = u.username;
      password_hash = u.password_hash;
      credential_version = u.credential_version;
      created_at = u.created_at;
    } in
    let space : SpaceRecord = record {
      id = s.id;
      owner_user_id = s.owner_user_id;
      name = s.name;
      created_at = s.created_at;
    } in
    let (configured, read, h1, e1) = bind-next (query any_user) _ w h in
    let (fresh, e2) = guard-ok configured bootstrap_already_completed _ w h1 in
    let h2 = ap (λ x. x.0) (sym e2) ∙ h1 in
    let (_, first, h3, e3) = bind-next (execute (insert_user user)) _ w h2 in
    let w1 = (execute (insert_user user) w).1 in
    let (_, second, h4, e4) = bind-next (execute (insert_space space)) _ w1 h3 in
    let (db1, accepted1, moved1) = execute-ok (insert_user user) w first in
    let (db2, accepted2, moved2) = execute-ok (insert_space space) w1 second in
    let (users1, spaces1) = insert_user-rows user w.db accepted1 in
    let (users2, spaces2) = insert_space-rows space w1.db accepted2 in
    let empty = no_users w.db w.db.users refl (cc (read, fresh)) in
    let ended = ap (λ x. x.db) (e1 ∙ ap (λ x. x.1) e2 ∙ e3 ∙ e4) ∙ ap (λ x. x.db) moved2 in
    let middle = ap (λ x. x.db) moved1 in
    (
      ground (arith, h4),
      record {
        none_before = empty;
        user = user;
        only =
            ap (λ d. d.users) ended
            ∙ users2
            ∙ ap (λ d. d.users) middle
            ∙ users1
            ∙ ap (λ l. user ∷ l) empty;
        space = space;
        added =
            ap (λ d. d.spaces) ended
            ∙ spaces2
            ∙ ap (λ l. space ∷ l) (ap (λ d. d.spaces) middle ∙ spaces1);
        owned = own;
        its_user = refl;
        its_space = refl;
        its_name = refl;
      },
    )

moved-IsFirst :
    {p q : AuthenticatedPrincipal} {a a' b b' : Db}
    → p ≡ q
    → a ≡ a'
    → b ≡ b'
    → IsFirst p a b
    → IsFirst q a' b'
moved-IsFirst pq aa bb first = rw (sym pq, sym aa, sym bb) first

user-id : (u : User) {made : User} → new_user u ≡ ok made → made.id ≡ Text.strip u.id
unfolding new_user require_text
user-id u h =
    let (id, first, h1) = >>=-eq-ok (require_text u.id) _ h in
    let (_, _, h2) = >>=-eq-ok (require_text u.username) _ h1 in ground (arith, first, h2)

space-owner :
    (s : PersonalSpace) {made : PersonalSpace}
    → new_space s ≡ ok made
    → made.owner_user_id ≡ Text.strip s.owner_user_id
unfolding new_space require_text
space-owner s h =
    let (_, _, h1) = >>=-eq-ok (require_text s.id) _ h in
    let (owner, second, h2) = >>=-eq-ok (require_text s.owner_user_id) _ h1 in
    let (_, _, h3) = >>=-eq-ok (require_text s.name) _ h2 in ground (arith, second, h3)

module _ (e : IdentityEnv) where
  unit-IsFirst :
      (u : User) (s : PersonalSpace) (w : World)
      → s.owner_user_id ≡ u.id
      → (unit_of_work (establish e u s) w).0 ≡ ok tt
      → IsFirst (principal u s) w.db (unit_of_work (establish e u s) w).1.db
  unit-IsFirst u s w own h = elim (unit_of_work-ok (establish e u s) w h) [
    | inl (ended, kept) ↦ rw (ap (λ x. x.db) kept) ((establish-IsFirst e u s w own ended).1)
    | inr (ended, _) ↦ absurd (ground (arith, (establish-IsFirst e u s w own ended).0))
  ]

  -- A bootstrap that succeeds ran where there was no user, and leaves exactly one user, who owns the
  -- space that was added; the principal names both.
  pub bootstrap-IsFirst :
      (username password space_name : String) (w : World) {p : AuthenticatedPrincipal}
      → (bootstrap e username password space_name w).0 ≡ ok p
      → IsFirst p w.db (bootstrap e username password space_name w).1.db
  unfolding bootstrap principal
  bootstrap-IsFirst username password space_name w h =
      let (_, _, h1, e1) = bind-next (utc_now e.env) _ w h in
      let w1 = (utc_now e.env w).1 in
      let (_, _, h2, e2) = bind-next (new_id e) _ w1 h1 in
      let w2 = (new_id e w1).1 in
      let (_, _, h3, e3) = bind-next (hash e password) _ w2 h2 in
      let w3 = (hash e password w2).1 in
      let (u, made_user, h4, e4) = bind-next (lift (new_user _)) _ w3 h3 in
      let (_, _, h5, e5) = bind-next (new_id e) _ w3 h4 in
      let w4 = (new_id e w3).1 in
      let (s, made_space, h6, e6) = bind-next (lift (new_space _)) _ w4 h5 in
      let own =
        space-owner _ made_space
        ∙ ap Text.strip (user-id _ made_user)
        ∙ strip-strip _
        ∙ sym (user-id _ made_user) in
      let (_, established, h7, e7) = bind-next (unit_of_work (establish e u s)) _ w4 h6 in
      let same = ((Keeps-hash Unchanged-preorder e password).at w2).same in
      let first = unit-IsFirst u s w4 own established in
      let ended = ap (λ x. x.db) (e1 ∙ e2 ∙ e3 ∙ e4 ∙ e5 ∙ e6 ∙ e7) in
      moved-IsFirst (ground (arith, h7)) same (sym ended) first
