-- ===== src/Audit/Repository.antt =====
-- backend/app/audit/adapters/repository.py and ports/repository.py: append and page audit events.
use personal_finance_public.Base.{
  ⊤, String, ℕ, ◌+◌, Bool, true, ◌&&◌, ◌||◌, not, Option, none, some, List, [], ◌∷◌, filter, length,
  ltb, nat_eq, ◌=?◌, text_le, sort_by, is_some, if◌then◌else◌,
}
use personal_finance_public.Base.{zero, suc}
use personal_finance_public.Storage.Exec.{Exec, pure, lift, ◌>>=◌}
use personal_finance_public.Storage.Schema.{AuditEventRecord}
use personal_finance_public.Storage.Schema.Statements.{insert_audit_event}
use personal_finance_public.Storage.World.{Env, World, execute, query}
use personal_finance_public.Audit.Event.{AuditEvent}
use personal_finance_public.Audit.Record.{record_of, events_of}

pub record AuditCursor : Type 0 where
  pub occurred_at : ℕ
  pub event_id : String

pub record AuditSlice : Type 0 where
  pub events : List AuditEvent
  pub has_more : Bool

unfoldable pub append : Env → AuditEvent → Exec World ⊤
append env event = execute (insert_audit_event (record_of env event))

-- `ORDER BY occurred_at DESC, id DESC`
abbrev pub newest_first : AuditEventRecord → AuditEventRecord → Bool
newest_first a b =
    if nat_eq a.occurred_at b.occurred_at
    then text_le b.id a.id
    else ltb b.occurred_at a.occurred_at

-- The rows after a cursor.
abbrev pub is_after : Option AuditCursor → AuditEventRecord → Bool
is_after none r = true
is_after (some c) r =
    ltb r.occurred_at c.occurred_at
    || (nat_eq r.occurred_at c.occurred_at && not (text_le c.event_id r.id))

unfoldable pub first_rows : {A : Type 0} → ℕ → List A → List A
first_rows zero rows = []
first_rows (suc n) [] = []
first_rows (suc n) (r ∷ rows) = r ∷ first_rows n rows

-- The rows of a page and whether there are more, before they are read as events.
unfoldable pub page_rows :
    (AuditEventRecord → Bool)
    → ℕ
    → Option AuditCursor
    → List AuditEventRecord
    → List AuditEventRecord × Bool
page_rows selects limit cursor rows =
    let found =
      first_rows (limit + 1)
        (sort_by newest_first (filter (λ r. selects r && is_after cursor r) rows)) in
    (first_rows limit found, ltb limit (length found))

-- `_page`
unfoldable pub page :
    Env → (AuditEventRecord → Bool) → ℕ → Option AuditCursor → Exec World AuditSlice
page env selects limit cursor = do
  (rows, has_more) ← query (λ db. page_rows selects limit cursor db.audit_events)
  events ← lift (events_of env rows)
  pure (record { events = events; has_more = has_more })

abbrev pub of_space : String → AuditEventRecord → Bool
of_space space_id r = r.space_id =? space_id

abbrev pub of_system : AuditEventRecord → Bool
of_system r = not (is_some r.space_id)

unfoldable pub page_space : Env → String → ℕ → Option AuditCursor → Exec World AuditSlice
page_space env space_id = page env (of_space space_id)

unfoldable pub page_system : Env → ℕ → Option AuditCursor → Exec World AuditSlice
page_system env = page env of_system
