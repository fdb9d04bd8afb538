-- ===== src/Ledger/Replay/Stored.antt =====
-- What `_post_idempotently` has stored when it succeeds.
use personal_finance_public.Base.{
  ⊤, String, Bool, false, ◌≡◌, refl, sym, ap, ◌∙◌, subst, none, some, List, ◌∷◌, arith, ==_refl,
  find?, Result, ok, err, Option-cases, ◌⊎◌, inl, inr, is_some,
}
use personal_finance_public.Domain.Transaction.{Transaction}
use personal_finance_public.Storage.Json.{JsonValue}
use personal_finance_public.Storage.Exec.{Exec, pure, lift, ◌>>=◌, ◌>>◌}
use personal_finance_public.Storage.Schema.{Db, IdempotencyRecord, idempotency_keyed}
use personal_finance_public.Storage.Schema.Statements.{has_key}
use personal_finance_public.Storage.World.{
  Env, World, Exit, committed, returned, leave, unit_of_work, handled, on_exception,
}
use personal_finance_public.Storage.World.Rules.{Keeps}
use personal_finance_public.Storage.World.Runs.{bind-ok}
use personal_finance_public.Ledger.Commands.{CommandResult, as_json}
use personal_finance_public.Ledger.Audit.{FinancialAuditSink, success}
use personal_finance_public.Ledger.Idempotency.{
  IdempotencyReservation, canonical_payload_hash, find, reserve, new_record, complete,
}
use personal_finance_public.Ledger.Idempotency.Replay.{
  resolve-ok, reserve-found, reserve-named, reserve-new, replay-ok, row_made,
}
use personal_finance_public.Ledger.Handlers.Posting.{
  result_of, replay, store_posted, post_new, replay_or_post, post_idempotently,
}
use personal_finance_public.Ledger.Replay.{
  SameKeys, decode_result-as_json, decode_result-replayed, IsStored, complete-run, lookup-head,
  find-update, audit-SameKeys, exit_of, re_raise-ok,
}

module _ (env : Env) (sink : FinancialAuditSink) (s n k : String) (p : JsonValue)
    (build : Exec World Transaction) (b : Bool) where
  pub IsStored-same :
      (db db' : Db) {result : CommandResult}
      → SameKeys db db'
      → IsStored env s n k p result db
      → IsStored env s n k p result db'
  unfolding find
  IsStored-same db db' same stored = record {
    row = stored.row;
    found = rw same.same_keys stored.found;
    value = stored.value;
    completed = stored.completed;
    decodes = stored.decodes;
  }

  -- The reservation of a row that is not completed.
  abbrev reserved : IdempotencyRecord → IdempotencyReservation
  reserved row = record { record_id = row.id; is_replay = false; result = JsonValue.null }

  record IsMine (row : IdempotencyRecord) : Type 0 where
    pub same_space : row.space_id ≡ s
    pub same_key : row.idempotency_key ≡ k
    pub same_name : row.command_name ≡ n
    pub same_hash : row.payload_hash ≡ canonical_payload_hash env p

  abbrev finish : IdempotencyRecord → Transaction → Exec World (Exit CommandResult)
  finish row t = do
    complete env (reserved row) (as_json (result_of t))
    sink.record_outcome n success s (some t.id) k
    pure (committed (result_of t))

  complete-IsStored :
      (row : IdempotencyRecord) (old : List IdempotencyRecord) (t : Transaction) (w : World)
      → w.db.idempotency_records ≡ row ∷ old
      → IsMine row
      → IsStored env s n k p
          (result_of t)
          (complete env (reserved row) (as_json (result_of t)) w).1.db
  unfolding find
  complete-IsStored row old t w rows mine = record {
    row = record row {
      result_json = some (as_json (result_of t));
      completed_at = some (env.now w.calls);
    };
    found =
        ap (find? (has_key s k)) (
          complete-run env s k (reserved row) (as_json (result_of t)) w row refl
            (rw rows (lookup-head row old)))
        ∙ rw rows (
            find-update s k row _ old refl
              (rw (mine.same_space, mine.same_key, ==_refl s, ==_refl k) refl));
    value = as_json (result_of t);
    completed = record {
      same_name = mine.same_name;
      same_hash = mine.same_hash;
      has_result = refl;
    };
    decodes = decode_result-as_json (result_of t);
  }

  finish-IsStored :
      (row : IdempotencyRecord) (old : List IdempotencyRecord) (t : Transaction) (w : World)
      (x : Exit CommandResult)
      → w.db.idempotency_records ≡ row ∷ old
      → IsMine row
      → (finish row t w).0 ≡ ok x
      → (x ≡ committed (result_of t)) × IsStored env s n k p (result_of t) (finish row t w).1.db
  finish-IsStored row old t w x rows mine h =
      let (_, _, e1) = bind-ok (complete env (reserved row) (as_json (result_of t))) _ w h in
      let w1 = (complete env (reserved row) (as_json (result_of t)) w).1 in
      let (_, _, e2) =
        bind-ok (sink.record_outcome n success s (some t.id) k) _ w1 (ap (λ r. r.0) (sym e1) ∙ h) in
      let whole = e1 ∙ e2 in
      (
        exit_of (sym h ∙ ap (λ r. r.0) whole),
        IsStored-same _ _
            (record {
              same_keys =
                  ap (λ r. r.1.db.idempotency_records) whole
                  ∙ (audit-SameKeys w1.db _
                      ((sink.audit_only n success s (some t.id) k).at w1)).same_keys;
            })
            (complete-IsStored row old t w rows mine),
      )

  -- The body of `with unit_of_work`.
  abbrev pub body : Exec World (Exit CommandResult)
  body = do
    reservation ← reserve env s n k p
    replayed ← lift (replay reservation)
    replay_or_post env sink s n k build b reservation replayed

  module _ (build_keeps : Keeps SameKeys build)
      (store_keeps : (t : Transaction) → Keeps SameKeys (store_posted env sink b t)) where
    post_new-IsStored :
        (row : IdempotencyRecord) (old : List IdempotencyRecord) (w : World)
        (x : Exit CommandResult)
        → w.db.idempotency_records ≡ row ∷ old
        → IsMine row
        → (post_new env sink s n k build b (reserved row) w).0 ≡ ok x
        → (result : CommandResult) × (x ≡ committed result)
          × IsStored env s n k p result (post_new env sink s n k build b (reserved row) w).1.db
    unfolding post_new
    post_new-IsStored row old w x rows mine h =
        let (t, _, e1) = bind-ok build _ w h in
        let w1 = (build w).1 in
        let (_, _, e2) = bind-ok (store_posted env sink b t) _ w1 (ap (λ r. r.0) (sym e1) ∙ h) in
        let w2 = (store_posted env sink b t w1).1 in
        let whole = e1 ∙ e2 in
        let rows2 = ((store_keeps t).at w1).same_keys ∙ (build_keeps.at w).same_keys ∙ rows in
        let (c, stored) =
          finish-IsStored row old t w2 x rows2 mine (ap (λ r. r.0) (sym whole) ∙ h) in
        (
          result_of t,
          c,
          IsStored-same _ _ (record { same_keys = ap (λ r. r.1.db.idempotency_records) whole })
              stored,
        )

    body-found :
        (row : IdempotencyRecord) (w : World) (x : Exit CommandResult)
        → find s k w.db ≡ some row
        → (body w).0 ≡ ok x
        → (result : CommandResult) × (x ≡ returned result) × IsStored env s n k p result w.db
    unfolding replay_or_post
    body-found row w x found h =
        let (made, p1, e1) = bind-ok (reserve env s n k p) _ w h in
        let (en, ek) = reserve-named env s n k p w p1 in
        let w1 = (reserve env s n k p w).1 in
        let resolved = ap (λ r. r.0) (sym (reserve-found env s n k p w row en ek found)) ∙ p1 in
        let (done, again) = resolve-ok row n (canonical_payload_hash env p) made resolved in
        let (o, p2, e2) = bind-ok (lift (replay made)) _ w1 (ap (λ r. r.0) (sym e1) ∙ h) in
        let (result, is_some, decodes) = replay-ok made again p2 in
        (
          result,
          exit_of (
              sym h
              ∙ ap (λ r. r.0) (e1 ∙ e2)
              ∙ ap (λ o. (replay_or_post env sink s n k build b made o w1).0) is_some),
          record {
            row = row;
            found = found;
            value = made.result;
            completed = done;
            decodes = decodes ∙ ap ok (sym (decode_result-replayed made.result result decodes));
          },
        )

    -- A fresh reservation is posted.
    fresh-posts :
        (row : IdempotencyRecord) (w : World)
        → (lift (replay (reserved row)) >>= replay_or_post env sink s n k build b (reserved row)) w
          ≡ post_new env sink s n k build b (reserved row) w
    unfolding ◌>>=◌ replay replay_or_post
    fresh-posts row w = refl

    row_made-IsMine : (w : World) → IsMine (row_made env s n k p w)
    unfolding new_record
    row_made-IsMine w = record {
      same_space = refl;
      same_key = refl;
      same_name = refl;
      same_hash = refl;
    }

    body-absent :
        (w : World) (x : Exit CommandResult)
        → find s k w.db ≡ none
        → (body w).0 ≡ ok x
        → (result : CommandResult) × (x ≡ committed result)
          × IsStored env s n k p result (body w).1.db
    body-absent w x absent h =
        let (made, p1, e1) = bind-ok (reserve env s n k p) _ w h in
        let w1 = (reserve env s n k p w).1 in
        let (made_is, rows) = reserve-new env s n k p w absent p1 in
        let row = row_made env s n k p w in
        let whole =
          e1
          ∙ ap (λ m. (lift (replay m) >>= replay_or_post env sink s n k build b m) w1) made_is
          ∙ fresh-posts row w1 in
        let (result, c, stored) =
          post_new-IsStored row w.db.idempotency_records w1 x rows (row_made-IsMine w)
            (ap (λ r. r.0) (sym whole) ∙ h) in
        (
          result,
          c,
          IsStored-same _ _ (record { same_keys = ap (λ r. r.1.db.idempotency_records) whole })
              stored,
        )

    leave-IsStored :
        (w : World) (r : Result (Exit CommandResult)) (w' : World) {result : CommandResult}
        → ((x : Exit CommandResult)
            → r ≡ ok x
            → ((result : CommandResult) × (x ≡ returned result) × IsStored env s n k p result w.db)
              ⊎ ((result : CommandResult) × (x ≡ committed result)
                  × IsStored env s n k p result w'.db))
        → (leave w (r, w')).0 ≡ ok result
        → IsStored env s n k p result (leave w (r, w')).1.db
    leave-IsStored w (ok (committed a)) w' f h = elim (f (committed a) refl) [
      | inl (c, q, stored) ↦ absurd (ground (arith, q))
      | inr (c, q, stored) ↦ subst (λ c. IsStored env s n k p c w'.db) (ground (arith, q, h)) stored
    ]
    leave-IsStored w (ok (returned a)) w' f h = elim (f (returned a) refl) [
      | inl (c, q, stored) ↦ subst (λ c. IsStored env s n k p c w.db) (ground (arith, q, h)) stored
      | inr (c, q, stored) ↦ absurd (ground (arith, q))
    ]
    leave-IsStored w (err e) w' f h = absurd (ground (arith, h))

    body-ok :
        (w : World) (x : Exit CommandResult)
        → (body w).0 ≡ ok x
        → ((result : CommandResult) × (x ≡ returned result) × IsStored env s n k p result w.db)
          ⊎ ((result : CommandResult) × (x ≡ committed result)
              × IsStored env s n k p result (body w).1.db)
    body-ok w x h = elim (Option-cases (find s k w.db)) [
      | inl absent ↦ inr (body-absent w x absent h)
      | inr (row, found) ↦ inl (body-found row w x found h)
    ]

    pub handled-ok :
        (handler : Exec World ⊤) (r : Result CommandResult) (w : World) {result : CommandResult}
        → (handled handler (r, w)).0 ≡ ok result
        → (r ≡ ok result) × ((handled handler (r, w)).1 ≡ w)
    handled-ok handler (ok a) w h = (h, refl)
    handled-ok handler (err e) w h = re_raise-ok e (handler w).0 (handler w).1 w h

    pub post_idempotently-IsStored :
        (w : World) {result : CommandResult}
        → (post_idempotently env sink s n k p build b w).0 ≡ ok result
        → IsStored env s n k p result (post_idempotently env sink s n k p build b w).1.db
    unfolding post_idempotently on_exception unit_of_work
    post_idempotently-IsStored w h =
        let (inside, same) = handled-ok _ (leave w (body w)).0 (leave w (body w)).1 h in
        IsStored-same _ _ (record { same_keys = ap (λ v. v.db.idempotency_records) same })
          (leave-IsStored w (body w).0 (body w).1 (body-ok w) inside)
