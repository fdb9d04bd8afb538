-- ===== src/Storage/World.antt =====
-- backend/app/shared/unit_of_work.py: a session is an action on the `World`, and the unit of work
-- keeps what it did only if it committed.
pub mod Rules
pub mod Runs
use personal_finance_public.Base.{
  ⊤, String, ℕ, suc, ◌≡◌, Option, none, some, Bool, true, false, Error, Result, ok, err,
  integrity_error,
}
use personal_finance_public.Base.Text
use personal_finance_public.Domain.Transaction.{Date}
use personal_finance_public.Storage.Exec.{Exec, pure, ◌>>=◌, ◌>>◌}
use personal_finance_public.Storage.Json.{JsonValue}
use personal_finance_public.Storage.Schema.{Db}
use personal_finance_public.Storage.Schema.Statements.{Statement}

-- What the program takes from outside: the random identifiers, the clocks, and Python's hash, date
-- format and `json`. The n-th call of a source of values returns its n-th value; `json_loads` has no
-- value for a text that is not JSON.
pub record Env : Type 0 where
  pub uuid4_hex : ℕ → String
  pub now : ℕ → ℕ
  pub today : ℕ → Date
  pub isoformat : Date → String
  pub sha256_hexdigest : String → String
  pub json_dumps : JsonValue → String
  pub json_loads : String → Option JsonValue

-- The database as the running session sees it, and the number of calls to the outside so far.
pub record World : Type 0 where
  pub db : Db
  pub calls : ℕ

abbrev pub count_call : World → World
count_call w = record w { calls = suc w.calls }

abbrev pub uuid4 : Env → Exec World String
uuid4 env w = (ok (env.uuid4_hex w.calls), count_call w)

abbrev pub utc_now : Env → Exec World ℕ
utc_now env w = (ok (env.now w.calls), count_call w)

abbrev pub local_today : Env → Exec World Date
local_today env w = (ok (env.today w.calls), count_call w)

abbrev pub after : World → Result Db → Result ⊤ × World
after w (ok db) = (ok tt, record w { db = db })
after w (err e) = (err e, w)

-- One flushed statement.
unfoldable pub execute : Statement → Exec World ⊤
execute statement w = after w (statement w.db)

-- A query.
abbrev pub query : {A : Type 0} → (Db → A) → Exec World A
query f w = (ok (f w.db), w)

-- `except IntegrityError as e: raise error from e`, round one flush.
abbrev pub translated : Error → Result ⊤ → Result ⊤
translated error (ok done) = ok done
translated error (err integrity_error) = err error
translated error (err other) = err other

unfoldable pub or_integrity : Exec World ⊤ → Error → Exec World ⊤
or_integrity m error w = let (r, w') = m w in (translated error r, w')

-- How the body of `with unit_of_work` ends: after `commit()`, or by a return without it.
pub data Exit (A : Type 0) : Type 0 where
  committed : A → Exit A
  returned : A → Exit A

abbrev pub leave : {A : Type 0} → World → Result (Exit A) × World → Result A × World
leave w (ok (committed a), w') = (ok a, w')
leave w (ok (returned a), w') = (ok a, record w' { db = w.db })
leave w (err e, w') = (err e, record w' { db = w.db })

-- `with unit_of_work_factory() as unit_of_work: …`; every way out but a commit rolls back.
unfoldable pub unit_of_work : {A : Type 0} → Exec World (Exit A) → Exec World A
unit_of_work body w = leave w (body w)

abbrev pub re_raise : {A : Type 0} → Error → Result ⊤ × World → Result A × World
re_raise e (ok done, w) = (err e, w)
re_raise e (err e', w) = (err e', w)

abbrev pub handled : {A : Type 0} → Exec World ⊤ → Result A × World → Result A × World
handled handler (ok a, w) = (ok a, w)
handled handler (err e, w) = re_raise e (handler w)

-- `try: … except Exception: handler; raise`; an error of the handler takes the place of the first.
unfoldable pub on_exception : {A : Type 0} → Exec World A → Exec World ⊤ → Exec World A
on_exception m handler w = handled handler (m w)
