-- ===== src/Storage/Schema/IdentityRows.antt =====
-- The statements on the tables of backend/app/shared/models_identity.py.
use personal_finance_public.Base.{
  String, ℕ, some, Bool, ◌&&◌, not, is_some, ◌∷◌, any, map, ◌==◌, ok, raise_if, ◌>>◌,
  integrity_error, if◌then◌else◌, arith,
}
use personal_finance_public.Storage.Table.{lookup, update}
use personal_finance_public.Storage.Schema.{
  Db, UserRecord, SpaceRecord, SessionRecord, user_keyed, space_keyed, session_keyed,
}
use personal_finance_public.Storage.Schema.Statements.{Statement}
use personal_finance_public.Storage.Schema.Others.{SameLedger}
use personal_finance_public.Storage.World.Rules.{Accepts}

abbrev pub has_user : String → Db → Bool
has_user user_id db = any (λ u. u.id == user_id) db.users

unfoldable pub insert_user : UserRecord → Statement
insert_user r db = do
  raise_if (is_some (lookup r.id db.users)) integrity_error
  raise_if (any (λ u. u.username == r.username) db.users) integrity_error
  ok (record db { users = r ∷ db.users })

unfoldable pub update_user_row : UserRecord → Statement
update_user_row r db = ok (record db { users = update r db.users })

unfoldable pub insert_space : SpaceRecord → Statement
insert_space r db = do
  raise_if (is_some (lookup r.id db.spaces)) integrity_error
  raise_if (not (has_user r.owner_user_id db)) integrity_error
  ok (record db { spaces = r ∷ db.spaces })

unfoldable pub insert_session : SessionRecord → Statement
insert_session r db = do
  raise_if (is_some (lookup r.id db.sessions)) integrity_error
  raise_if (any (λ s. s.token_hash == r.token_hash) db.sessions) integrity_error
  raise_if (not (has_user r.user_id db)) integrity_error
  ok (record db { sessions = r ∷ db.sessions })

unfoldable pub update_session_row : SessionRecord → Statement
update_session_row r db = ok (record db { sessions = update r db.sessions })

-- `UPDATE sessions SET revoked_at = … WHERE user_id = … AND revoked_at IS NULL`
abbrev pub revoked_if : String → ℕ → SessionRecord → SessionRecord
revoked_if user_id revoked_at s =
    if s.user_id == user_id && not (is_some s.revoked_at)
    then record s { revoked_at = some revoked_at }
    else s

unfoldable pub revoke_user_sessions : String → ℕ → Statement
revoke_user_sessions user_id revoked_at db =
    ok (record db { sessions = map (revoked_if user_id revoked_at) db.sessions })

pub insert_user-SameLedger : (r : UserRecord) → Accepts SameLedger (insert_user r)
unfolding insert_user
insert_user-SameLedger r = record { accepts = λ db db' h. ground arith }

pub update_user_row-SameLedger : (r : UserRecord) → Accepts SameLedger (update_user_row r)
unfolding update_user_row
update_user_row-SameLedger r = record { accepts = λ db db' h. ground arith }

pub insert_space-SameLedger : (r : SpaceRecord) → Accepts SameLedger (insert_space r)
unfolding insert_space
insert_space-SameLedger r = record { accepts = λ db db' h. ground arith }

pub insert_session-SameLedger : (r : SessionRecord) → Accepts SameLedger (insert_session r)
unfolding insert_session
insert_session-SameLedger r = record { accepts = λ db db' h. ground arith }

pub update_session_row-SameLedger : (r : SessionRecord) → Accepts SameLedger (update_session_row r)
unfolding update_session_row
update_session_row-SameLedger r = record { accepts = λ db db' h. ground arith }

pub revoke_user_sessions-SameLedger :
    (u : String) (t : ℕ) → Accepts SameLedger (revoke_user_sessions u t)
unfolding revoke_user_sessions
revoke_user_sessions-SameLedger u t = record { accepts = λ db db' h. ground arith }

pub ruleset identity_rules = (
  insert_user-SameLedger, update_user_row-SameLedger, insert_space-SameLedger,
  insert_session-SameLedger, update_session_row-SameLedger, revoke_user_sessions-SameLedger,
)
