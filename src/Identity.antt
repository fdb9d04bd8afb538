-- ===== src/Identity.antt =====
-- backend/app/identity/domain/user.py: the operator, the personal space, and their constructors.
pub mod Credentials
pub mod Repository
pub mod Sessions
pub mod Service
use personal_finance_public.Base.{
  String, ℕ, ◌+◌, Bool, true, Result, ok, raise_if, ◌>>=◌, ◌>>◌, value_error, ltb,
}
use personal_finance_public.Base.Text

-- Timestamps are in UTC by their type.
pub record User : Type 0 where
  pub id : String
  pub username : String
  pub password_hash : String
  pub credential_version : ℕ
  pub created_at : ℕ
  pub active : Bool

pub record PersonalSpace : Type 0 where
  pub id : String
  pub owner_user_id : String
  pub name : String
  pub created_at : ℕ

-- `_require_text`
unfoldable pub require_text : String → Result String
require_text value = do
  raise_if (Text.is_empty (Text.strip value)) value_error
  ok (Text.strip value)

-- `User(...)`, with `__post_init__`.
unfoldable pub new_user : User → Result User
new_user u = do
  id ← require_text u.id
  username ← require_text u.username
  raise_if (Text.is_empty u.password_hash) value_error
  raise_if (ltb u.credential_version 1) value_error
  ok (record u { id = id; username = username })

unfoldable pub with_password_hash : User → String → Result User
with_password_hash u password_hash = do
  raise_if (Text.is_empty password_hash) value_error
  new_user
      (record u { password_hash = password_hash; credential_version = u.credential_version + 1 })

-- `PersonalSpace(...)`, with `__post_init__`.
unfoldable pub new_space : PersonalSpace → Result PersonalSpace
new_space s = do
  id ← require_text s.id
  owner_user_id ← require_text s.owner_user_id
  name ← require_text s.name
  ok (record s { id = id; owner_user_id = owner_user_id; name = name })
