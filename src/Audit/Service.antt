-- ===== src/Audit/Service.antt =====
-- backend/app/audit/application/service.py: appending and querying audit events.
use personal_finance_public.Base.{
  ⊤, String, ℕ, true, false, ◌||◌, Option, none, some, List, [], ◌∷◌, ltb, value_error,
}
use personal_finance_public.Base.Text
use personal_finance_public.Storage.Exec.{Exec, pure, lift, guard, ◌>>=◌, ◌>>◌}
use personal_finance_public.Storage.World.{Env, World, committed, returned, uuid4, unit_of_work}
use personal_finance_public.Audit.Event.{AuditEventDraft, AuditEvent, from_draft}
use personal_finance_public.Audit.Repository.{
  AuditCursor, AuditSlice, append, page_space, page_system,
}

pub record AuditPage : Type 0 where
  pub events : List AuditEvent
  pub next_cursor : Option AuditCursor

module _ (env : Env) where
  unfoldable pub append_in_transaction : AuditEventDraft → Exec World AuditEvent
  append_in_transaction draft = do
    id ← uuid4 env
    event ← lift (from_draft id draft)
    append env event
    pure event

  unfoldable pub append_durable : AuditEventDraft → Exec World AuditEvent
  append_durable draft = unit_of_work do event ← append_in_transaction draft; pure (committed event)

-- `events[-1]`
abbrev last_cursor : List AuditEvent → Option AuditCursor
last_cursor [] = none
last_cursor (e ∷ []) = some (record { occurred_at = e.occurred_at; event_id = e.id })
last_cursor (e ∷ f ∷ rest) = last_cursor (f ∷ rest)

-- `_page`
unfoldable pub page_of : AuditSlice → AuditPage
page_of slice = record {
  events = slice.events;
  next_cursor = elim slice.has_more [ true ↦ last_cursor slice.events | false ↦ none ];
}

-- `_validate_limit`
unfoldable pub validate_limit : ℕ → Exec World ⊤
validate_limit limit = guard (ltb limit 1 || ltb 200 limit) value_error

unfoldable pub for_space : Env → String → ℕ → Option AuditCursor → Exec World AuditPage
for_space env space_id limit cursor = do
  guard (Text.is_empty space_id) value_error
  validate_limit limit
  slice ← unit_of_work do slice ← page_space env space_id limit cursor; pure (returned slice)
  pure (page_of slice)

unfoldable pub system : Env → ℕ → Option AuditCursor → Exec World AuditPage
system env limit cursor = do
  validate_limit limit
  slice ← unit_of_work do slice ← page_system env limit cursor; pure (returned slice)
  pure (page_of slice)
