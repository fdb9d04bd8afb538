-- ===== src/Identity/Repository.antt =====
-- `_SqlAlchemyIdentityRepository` of backend/app/identity/adapters/sessions.py.
use personal_finance_public.Base.{
  ⊤, String, ℕ, Bool, true, false, Option, none, some, List, [], ◌∷◌, find?, ◌==◌, Result,
  runtime_error,
}
use personal_finance_public.Storage.Table.{lookup}
use personal_finance_public.Storage.Exec.{Exec, pure, lift, raise, or_raise, ◌>>=◌}
use personal_finance_public.Storage.Schema.{Db, UserRecord, SpaceRecord, user_keyed}
use personal_finance_public.Storage.Schema.IdentityRows.{
  insert_user, update_user_row, insert_space, revoke_user_sessions,
}
use personal_finance_public.Storage.World.{World, query, execute}
use personal_finance_public.Identity.{User, PersonalSpace, new_user, new_space}

-- `_to_user`
unfoldable pub to_user : UserRecord → Result User
to_user r = new_user (record {
  id = r.id;
  username = r.username;
  password_hash = r.password_hash;
  credential_version = r.credential_version;
  created_at = r.created_at;
  active = true;
})

-- `_to_space`
unfoldable pub to_space : SpaceRecord → Result PersonalSpace
to_space r = new_space (record {
  id = r.id;
  owner_user_id = r.owner_user_id;
  name = r.name;
  created_at = r.created_at;
})

abbrev pub optional_user : Option UserRecord → Exec World (Option User)
optional_user none = pure none
optional_user (some r) = do u ← lift (to_user r); pure (some u)

abbrev pub optional_space : Option SpaceRecord → Exec World (Option PersonalSpace)
optional_space none = pure none
optional_space (some r) = do s ← lift (to_space r); pure (some s)

abbrev pub any_user : Db → Bool
any_user db = elim db.users [ [] ↦ false | u ∷ users ↦ true ]

unfoldable pub has_any_user : Exec World Bool
has_any_user = query any_user

unfoldable pub add_user : User → Exec World ⊤
add_user u = execute (
    insert_user (record {
      id = u.id;
      username = u.username;
      password_hash = u.password_hash;
      credential_version = u.credential_version;
      created_at = u.created_at;
    }))

-- The row is flushed by the commit that follows.
unfoldable pub add_space : PersonalSpace → Exec World ⊤
add_space s = execute (
    insert_space (record {
      id = s.id;
      owner_user_id = s.owner_user_id;
      name = s.name;
      created_at = s.created_at;
    }))

unfoldable pub user_by_username : String → Exec World (Option User)
user_by_username username = do
  found ← query (λ db. find? (λ u. u.username == username) db.users)
  optional_user found

abbrev pub only_row : List UserRecord → Exec World (Option User)
only_row [] = pure none
only_row (r ∷ []) = optional_user (some r)
only_row (r ∷ s ∷ rest) = raise runtime_error

unfoldable pub only_user : Exec World (Option User)
only_user = do records ← query (λ db. db.users); only_row records

unfoldable pub space_for_user : String → Exec World (Option PersonalSpace)
space_for_user user_id = do
  found ← query (λ db. find? (λ s. s.owner_user_id == user_id) db.spaces)
  optional_space found

unfoldable pub update_user : User → Exec World ⊤
update_user u = do
  found ← query (λ db. lookup u.id db.users)
  r ← or_raise found runtime_error
  execute (
      update_user_row
        (record r { password_hash = u.password_hash; credential_version = u.credential_version }))

unfoldable pub revoke_sessions : String → ℕ → Exec World ⊤
revoke_sessions user_id revoked_at = execute (revoke_user_sessions user_id revoked_at)
