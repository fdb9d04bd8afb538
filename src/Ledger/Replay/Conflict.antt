-- ===== src/Ledger/Replay/Conflict.antt =====
-- `_post_idempotently` under a key that another command holds.
use personal_finance_public.Base.{
  String, Bool, false, ◌&&◌, ◌≡◌, ◌≢◌, refl, ◌==◌, Result, ok, err, inl, inr,
}
use personal_finance_public.Domain.Transaction.{Transaction}
use personal_finance_public.Storage.Json.{JsonValue}
use personal_finance_public.Storage.Exec.{Exec}
use personal_finance_public.Storage.Schema.{Db}
use personal_finance_public.Storage.World.{Env, World, Exit, unit_of_work}
use personal_finance_public.Storage.World.Rules.{Keeps}
use personal_finance_public.Storage.World.Runs.{bind-ok, unit_of_work-ok, on_exception-ok}
use personal_finance_public.Ledger.Commands.{CommandResult}
use personal_finance_public.Ledger.Audit.{FinancialAuditSink, AuditOnly}
use personal_finance_public.Ledger.Calls.Clean.{CleanIfFailed}
use personal_finance_public.Ledger.Calls.Atomicity.{post_idempotently-clean}
use personal_finance_public.Ledger.Idempotency.{canonical_payload_hash, reserve}
use personal_finance_public.Ledger.Idempotency.Replay.{reserve-named, reserve-conflict}
use personal_finance_public.Ledger.Handlers.Posting.{post_idempotently}
use personal_finance_public.Ledger.Replay.{SameKeys, IsStored}
use personal_finance_public.Ledger.Replay.Keys.{store_posted-SameKeys}
use personal_finance_public.Ledger.Replay.Stored.{IsStored-same, body, post_idempotently-IsStored}

-- What fails, and leaves nothing behind but audit events.
pub record IsRefused (db : Db) (out : Result CommandResult × World) : Type 0 where
  pub fails : (result : CommandResult) → out.0 ≢ ok result
  pub clean : AuditOnly db out.1.db

pub IsRefused-clean :
    (db : Db) (out : Result CommandResult × World)
    → ((result : CommandResult) → out.0 ≢ ok result)
    → CleanIfFailed db out
    → IsRefused db out
IsRefused-clean db (ok a, w) fails clean = absurd (fails a refl)
IsRefused-clean db (err e, w) fails clean = record { fails = fails; clean = clean }

module _ (env : Env) (sink : FinancialAuditSink) (s k : String) where
  -- A key that holds a command's result is in no reservation of another command.
  body-conflict :
      (n n' : String) (p p' : JsonValue) (build' : Exec World Transaction) (b' : Bool) (w : World)
      {result : CommandResult} {x : Exit CommandResult}
      → (n == n' && canonical_payload_hash env p == canonical_payload_hash env p') ≡ false
      → IsStored env s n k p result w.db
      → (body env sink s n' k p' build' b' w).0 ≢ ok x
  body-conflict n n' p p' build' b' w other stored h =
      let (_, made, _) = bind-ok (reserve env s n' k p') _ w h in
      let (named, keyed) = reserve-named env s n' k p' w made in
      let row = stored.row in
      let differs : (row.command_name == n' && row.payload_hash == canonical_payload_hash env p')
          ≡ false =
        rw (stored.completed.same_name, stored.completed.same_hash) other in
      cc (made, reserve-conflict env s n' k p' w stored.row named keyed stored.found differs)

  post_idempotently-refuses :
      (n n' : String) (p p' : JsonValue) (build' : Exec World Transaction) (b' : Bool) (w : World)
      {result : CommandResult}
      → (n == n' && canonical_payload_hash env p == canonical_payload_hash env p') ≡ false
      → IsStored env s n k p result w.db
      → (other : CommandResult) → (post_idempotently env sink s n' k p' build' b' w).0 ≢ ok other
  unfolding post_idempotently
  post_idempotently-refuses n n' p p' build' b' w differs stored other h =
      let inside = body env sink s n' k p' build' b' in
      let (done, _) = on_exception-ok (unit_of_work inside) _ w h in
      elim (unit_of_work-ok inside w done) [
        | inl (ended, _) ↦ body-conflict n n' p p' build' b' w differs stored ended
        | inr (ended, _) ↦ body-conflict n n' p p' build' b' w differs stored ended
      ]

  -- Once a command has succeeded under a key, another command, or the same one with a payload of
  -- another hash, fails under that key in any world with the same stored keys, and leaves that
  -- world's database as it was, but that audit events may have been added.
  pub post_idempotently-conflict :
      (n n' : String) (p p' : JsonValue) (build build' : Exec World Transaction) (b b' : Bool)
      (w later : World) {result : CommandResult}
      → Keeps SameKeys build
      → (post_idempotently env sink s n k p build b w).0 ≡ ok result
      → later.db.idempotency_records
        ≡ (post_idempotently env sink s n k p build b w).1.db.idempotency_records
      → (n == n' && canonical_payload_hash env p == canonical_payload_hash env p') ≡ false
      → IsRefused later.db (post_idempotently env sink s n' k p' build' b' later)
  post_idempotently-conflict n n' p p' build build' b b' w later keeps h same other =
      let stored =
        IsStored-same env sink s n k p build b _ _ (record { same_keys = same })
          (post_idempotently-IsStored env sink s n k p build b keeps
            (store_posted-SameKeys env sink b) w h) in
      IsRefused-clean later.db _ (post_idempotently-refuses n n' p p' build' b' later other stored)
        ((post_idempotently-clean env sink s n' k p' build' b').at later)
