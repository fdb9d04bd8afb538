-- ===== src/Ledger/Replay.antt =====
-- What the records of idempotency keys say after a command: the relation that leaves them alone, and
-- the record that holds a command's result.
pub mod Stored
pub mod Again
pub mod Keys
pub mod Commands
pub mod Conflict
use personal_finance_public.Base.{
  ⊤, String, ℕ, Bool, true, false, ◌&&◌, ◌||◌, not, ◌≡◌, refl, sym, ap, ◌∙◌, subst, Option, none,
  some, List, [], ◌∷◌, arith, ◌==◌, ==→≡, ==_refl, find?, Error, Result, ok, err, if◌then◌else◌,
  Bool-cases, Option-cases, ◌⊎◌, inl, inr, is_some,
}
use personal_finance_public.Base.Text
use personal_finance_public.Domain.Transaction.{Transaction}
use personal_finance_public.Storage.Json.{JsonValue, get}
use personal_finance_public.Storage.Table.{lookup, update}
use personal_finance_public.Storage.Exec.{Exec, pure, lift, resume, ◌>>=◌, ◌>>◌}
use personal_finance_public.Storage.Schema.{Db, IdempotencyRecord, idempotency_keyed}
use personal_finance_public.Storage.Schema.Statements.{
  has_key, insert_idempotency_record, update_idempotency_record,
}
use personal_finance_public.Storage.World.{
  Env, World, Exit, committed, returned, leave, unit_of_work, re_raise, handled, on_exception,
  execute,
}
use personal_finance_public.Storage.World.Rules.{Preorder, Keeps}
use personal_finance_public.Ledger.Commands.{CommandResult, as_json}
use personal_finance_public.Ledger.Audit.{FinancialAuditSink, AuditOnly, success}
use personal_finance_public.Ledger.Idempotency.{
  IdempotencyReservation, canonical_payload_hash, find, reserve, reserve_new, reserve_found,
  new_record, complete,
}
use personal_finance_public.Ledger.Idempotency.Replay.{
  IsCompleted, resolve-IsCompleted, resolve-ok, reserve-found, reserve-named, reserve-new,
  replay-ok, row_made,
}
use personal_finance_public.Ledger.Handlers.Posting.{
  stored_result, stored_replacement, result_of, decode_result, replay, store_posted, post_new,
  replay_or_post, post_idempotently,
}

-- The stored keys are as they were.
pub record SameKeys (db db' : Db) : Type 0 where
  pub same_keys : db'.idempotency_records ≡ db.idempotency_records

pub SameKeys-preorder : Preorder SameKeys
SameKeys-preorder = record {
  reflexive = λ a. record { same_keys = refl };
  transitive = λ a b c p q. record { same_keys = q.same_keys ∙ p.same_keys };
}

-- A stored result is read back as it was, marked as replayed.
pub decode_result-as_json :
    (r : CommandResult) → decode_result (as_json r) ≡ ok (record r { replayed = true })
unfolding decode_result as_json get ◌==◌ stored_result stored_replacement
decode_result-as_json r = ground arith

pub decode_result-replayed :
    (j : JsonValue) (r : CommandResult) → decode_result j ≡ ok r → record r { replayed = true } ≡ r
unfolding decode_result stored_result
decode_result-replayed j r h = ground arith

-- The key holds the result of the command.
pub record IsStored (env : Env) (s n k : String) (p : JsonValue) (result : CommandResult) (db : Db)
    : Type 0 where
  pub row : IdempotencyRecord
  pub found : find s k db ≡ some row
  pub value : JsonValue
  pub completed : IsCompleted n (canonical_payload_hash env p) value row
  pub decodes : decode_result value ≡ ok (record result { replayed = true })

module _ (env : Env) (s k : String) (reservation : IdempotencyReservation) (j : JsonValue) where
  pub complete-run :
      (w : World) (row : IdempotencyRecord)
      → reservation.is_replay ≡ false
      → lookup reservation.record_id w.db.idempotency_records ≡ some row
      → (complete env reservation j w).1.db.idempotency_records
        ≡ update
            (record row { result_json = some j; completed_at = some (env.now w.calls) })
            w.db.idempotency_records
  unfolding complete ◌>>=◌ execute update_idempotency_record
  complete-run w row fresh found = rw (fresh, found) refl

pub lookup-head :
    (row : IdempotencyRecord) (old : List IdempotencyRecord) → lookup row.id (row ∷ old) ≡ some row
unfolding lookup
lookup-head row old = rw (==_refl row.id) refl

pub find-update :
    (s k : String) (row new : IdempotencyRecord) (old : List IdempotencyRecord)
    → new.id ≡ row.id
    → has_key s k new ≡ true
    → find? (has_key s k) (update new (row ∷ old)) ≡ some new
unfolding update
find-update s k row new old same mine = ground (arith, same, ==_refl row.id, mine)

pub audit-SameKeys : (db db' : Db) → AuditOnly db db' → SameKeys db db'
audit-SameKeys db db' a = record { same_keys = ap (λ d. d.idempotency_records) a.only_audit }

pub exit_of : {x y : Exit CommandResult} → ok x ≡ ok y → x ≡ y
exit_of h = ground (arith, h)

-- An error that is raised again is not a result.
pub re_raise-ok :
    (e : Error) (r : Result ⊤) (w v : World) {a : CommandResult}
    → (re_raise e (r, w)).0 ≡ ok a
    → (err e ≡ ok a) × ((re_raise {A = CommandResult} e (r, w)).1 ≡ v)
re_raise-ok e (ok done) w v h = absurd (ground (arith, h))
re_raise-ok e (err e') w v h = absurd (ground (arith, h))
