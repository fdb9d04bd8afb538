-- ===== src/Audit/Bindings/Limits.antt =====
-- The ledger's commands with `LedgerAuditBinding` as their sink: the key of a command is the
-- correlation identifier of its event, and events bound it.
use personal_finance_public.Base.{
  String, Bool, true, false, ◌≡◌, ◌≤◌, ◌<◌, sym, ap, ◌∙◌, none, some, arith, ok, inl, inr,
}
use personal_finance_public.Base.Text
use personal_finance_public.Domain.Transaction.{Transaction}
use personal_finance_public.Storage.Json.{JsonValue}
use personal_finance_public.Storage.Exec.{Exec, lift, ◌>>=◌}
use personal_finance_public.Storage.World.{Env, World, Exit, unit_of_work}
use personal_finance_public.Storage.World.Runs.{bind-next, unit_of_work-ok, on_exception-ok}
use personal_finance_public.Ledger.Commands.{CommandResult, as_json}
use personal_finance_public.Ledger.Audit.{success}
use personal_finance_public.Ledger.Calls.Atomicity.{post_idempotently-clean}
use personal_finance_public.Ledger.Idempotency.{IdempotencyReservation, find, reserve, complete}
use personal_finance_public.Ledger.Idempotency.Replay.{reserve-new}
use personal_finance_public.Ledger.Handlers.Posting.{
  result_of, replay, store_posted, post_new, replay_or_post, post_idempotently,
}
use personal_finance_public.Ledger.Replay.Stored.{body}
use personal_finance_public.Ledger.Replay.Conflict.{IsRefused, IsRefused-clean}
use personal_finance_public.Audit.Event.{is_identifier}
use personal_finance_public.Audit.Bindings.Sinks.{ledger_sink, record_ledger-rows}

bounded : (s : String) → is_identifier s ≡ true → Text.length s ≤ 120
unfolding is_identifier
bounded s h = ground (arith, h)

module _ (env : Env) (s n k : String) (build : Exec World Transaction) (b : Bool) where
  -- What is posted under a new key has been recorded, so the key is within the bound.
  post_new-bounded :
      (made : IdempotencyReservation) (w : World) {x : Exit CommandResult}
      → (post_new env (ledger_sink env) s n k build b made w).0 ≡ ok x
      → Text.length k ≤ 120
  unfolding post_new ledger_sink
  post_new-bounded made w h =
      let (t, _, h1, _) = bind-next build _ w h in
      let (_, _, h2, _) = bind-next (store_posted env (ledger_sink env) b t) _ _ h1 in
      let (_, _, h3, _) = bind-next (complete env made (as_json (result_of t))) _ _ h2 in
      let (_, recorded, _, _) =
        bind-next ((ledger_sink env).record_outcome n success s (some t.id) k) _ _ h3 in
      let (e, about, _) = record_ledger-rows env n success s (some t.id) k _ recorded in
      bounded k (cc (about.valid.correlation, about.correlated))

  fresh-bounded :
      (made : IdempotencyReservation) (w : World) {x : Exit CommandResult}
      → made.is_replay ≡ false
      → ((lift (replay made) >>= replay_or_post env (ledger_sink env) s n k build b made) w).0
        ≡ ok x
      → Text.length k ≤ 120
  unfolding replay replay_or_post
  fresh-bounded made w fresh h =
      let (o, read, h1, _) = bind-next (lift (replay made)) _ w h in
      let new : o ≡ none = ground (arith, read, fresh) in
      post_new-bounded made w
        (ap (λ o. (replay_or_post env (ledger_sink env) s n k build b made o w).0) (sym new) ∙ h1)

  body-bounded :
      (p : JsonValue) (w : World) {x : Exit CommandResult}
      → find s k w.db ≡ none
      → (body env (ledger_sink env) s n k p build b w).0 ≡ ok x
      → Text.length k ≤ 120
  body-bounded p w absent h =
      let (made, reserved, h1, _) = bind-next (reserve env s n k p) _ w h in
      let (made_is, _) = reserve-new env s n k p w absent reserved in
      fresh-bounded made _ (ap (λ r. r.is_replay) made_is) h1

  -- A command under a key that is not stored and has more than 120 characters fails when the audit
  -- binding of the application is its sink, and leaves the database as it was, but that audit events
  -- may have been added.
  pub post_idempotently-long_key :
      (p : JsonValue) (w : World)
      → find s k w.db ≡ none
      → 120 < Text.length k
      → IsRefused w.db (post_idempotently env (ledger_sink env) s n k p build b w)
  unfolding post_idempotently
  post_idempotently-long_key p w absent long =
      IsRefused-clean w.db _
        (λ result h.
          let inside = body env (ledger_sink env) s n k p build b in
          let (done, _) = on_exception-ok (unit_of_work inside) _ w h in
          elim (unit_of_work-ok inside w done) [
            | inl (ended, _) ↦ absurd (ground (arith, long, body-bounded p w absent ended))
            | inr (ended, _) ↦ absurd (ground (arith, long, body-bounded p w absent ended))
          ])
        ((post_idempotently-clean env (ledger_sink env) s n k p build b).at w)
