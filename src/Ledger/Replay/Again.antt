-- ===== src/Ledger/Replay/Again.antt =====
-- `_post_idempotently` under a key that holds a result.
use personal_finance_public.Base.{
  String, Bool, true, false, ◌≡◌, refl, ap, ◌∙◌, arith, Result, ok, err,
}
use personal_finance_public.Base.Text
use personal_finance_public.Domain.Transaction.{Transaction}
use personal_finance_public.Storage.Json.{JsonValue}
use personal_finance_public.Storage.Exec.{Exec, lift, resume, ◌>>=◌}
use personal_finance_public.Storage.Schema.{IdempotencyRecord, idempotency_keyed}
use personal_finance_public.Storage.World.{
  Env, World, Exit, returned, leave, unit_of_work, on_exception,
}
use personal_finance_public.Storage.World.Rules.{Keeps}
use personal_finance_public.Storage.World.Runs.{bind-ok}
use personal_finance_public.Ledger.Commands.{CommandResult}
use personal_finance_public.Ledger.Audit.{FinancialAuditSink}
use personal_finance_public.Ledger.Idempotency.{canonical_payload_hash, reserve}
use personal_finance_public.Ledger.Idempotency.Replay.{
  resolve-IsCompleted, reserve-found, reserve-named,
}
use personal_finance_public.Ledger.Handlers.Posting.{
  decode_result, replay, store_posted, replay_or_post, post_idempotently,
}
use personal_finance_public.Ledger.Replay.{SameKeys, IsStored}
use personal_finance_public.Ledger.Replay.Stored.{
  IsStored-same, body, handled-ok, post_idempotently-IsStored,
}

leave-ok :
    {A : Type 0} (w : World) (r : Result (Exit A)) (w' : World) {a : A}
    → (leave w (r, w')).0 ≡ ok a
    → (x : Exit A) × (r ≡ ok x)
leave-ok w (ok x) w' h = (x, refl)
leave-ok w (err e) w' h = absurd (ground (arith, h))

module _ (env : Env) (sink : FinancialAuditSink) (s n k : String) (p : JsonValue)
    (build : Exec World Transaction) (b : Bool) where
  replay_result :
      (row : IdempotencyRecord) {result : CommandResult} (value : JsonValue) (w : World)
      → decode_result value ≡ ok result
      → (lift (replay (record { record_id = row.id; is_replay = true; result = value }))
            >>= replay_or_post env sink s n k build b
                (record { record_id = row.id; is_replay = true; result = value }))
          w
        ≡ (ok (returned result), w)
  unfolding ◌>>=◌ replay replay_or_post
  replay_result row value w decodes = rw decodes refl

  reserve-again :
      {result : CommandResult} (w : World)
      → Text.is_empty n ≡ false
      → Text.is_empty k ≡ false
      → (stored : IsStored env s n k p result w.db)
      → reserve env s n k p w
        ≡ (ok (record { record_id = stored.row.id; is_replay = true; result = stored.value }), w)
  reserve-again w en ek stored =
      reserve-found env s n k p w stored.row en ek stored.found
      ∙ ap (λ r. (r, w))
          (resolve-IsCompleted stored.row n (canonical_payload_hash env p) stored.value
            stored.completed)

  body-replays :
      {result : CommandResult} (w : World)
      → Text.is_empty n ≡ false
      → Text.is_empty k ≡ false
      → IsStored env s n k p result w.db
      → body env sink s n k p build b w ≡ (ok (returned (record result { replayed = true })), w)
  unfolding ◌>>=◌
  body-replays w en ek stored =
      ap (resume _) (reserve-again w en ek stored)
      ∙ replay_result stored.row stored.value w stored.decodes

  stored-replays :
      {result : CommandResult} (w : World)
      → Text.is_empty n ≡ false
      → Text.is_empty k ≡ false
      → IsStored env s n k p result w.db
      → post_idempotently env sink s n k p build b w ≡ (ok (record result { replayed = true }), w)
  unfolding post_idempotently on_exception unit_of_work
  stored-replays w en ek stored = rw (body-replays w en ek stored) refl

  module _ (build_keeps : Keeps SameKeys build)
      (store_keeps : (t : Transaction) → Keeps SameKeys (store_posted env sink b t)) where
    named_if_ok :
        (w : World) {result : CommandResult}
        → (post_idempotently env sink s n k p build b w).0 ≡ ok result
        → (Text.is_empty n ≡ false) × (Text.is_empty k ≡ false)
    unfolding post_idempotently on_exception unit_of_work
    named_if_ok w h =
        let inside = body env sink s n k p build b w in
        let (left, _) =
          handled-ok env sink s n k p build b build_keeps store_keeps _ (leave w inside).0
            (leave w inside).1 h in
        let (_, out) = leave-ok w inside.0 inside.1 left in
        let (_, p1, _) = bind-ok (reserve env s n k p) _ w out in reserve-named env s n k p w p1

    pub post_idempotently-replays :
        (w later : World) {result : CommandResult}
        → (post_idempotently env sink s n k p build b w).0 ≡ ok result
        → later.db.idempotency_records
          ≡ (post_idempotently env sink s n k p build b w).1.db.idempotency_records
        → post_idempotently env sink s n k p build b later
          ≡ (ok (record result { replayed = true }), later)
    post_idempotently-replays w later h same =
        let (en, ek) = named_if_ok w h in
        stored-replays later en ek (
          IsStored-same env sink s n k p build b _ _ (record { same_keys = same })
            (post_idempotently-IsStored env sink s n k p build b build_keeps store_keeps w h))
