-- ===== src/Ledger/Idempotency/Replay.antt =====
-- `reserve` of backend/app/shared/idempotency.py on a key that is in use, and on a new one.
use personal_finance_public.Base.{
  String, true, false, ◌&&◌, ◌≡◌, refl, sym, ap, ◌∙◌, Option, none, some, ◌∷◌, arith, ◌==◌, ==→≡,
  ==_refl, ok, err, idempotency_conflict, Bool-cases, Result-cases, inl, inr,
}
use personal_finance_public.Base.Text
use personal_finance_public.Storage.Json.{JsonValue}
use personal_finance_public.Storage.Exec.{◌>>=◌}
use personal_finance_public.Storage.Schema.{Db, IdempotencyRecord, idempotency_keyed}
use personal_finance_public.Storage.Schema.Statements.{insert_idempotency_record}
use personal_finance_public.Storage.World.{Env, World, execute}
use personal_finance_public.Ledger.Commands.{CommandResult}
use personal_finance_public.Ledger.Handlers.Posting.{decode_result, replay}
use personal_finance_public.Ledger.Idempotency.{
  IdempotencyReservation, canonical_payload_hash, find, resolve, reserve_new, new_record,
  reserve_found, reserve,
}

-- A completed record of a command under its key.
pub record IsCompleted (command_name payload_hash : String) (result : JsonValue)
    (r : IdempotencyRecord) : Type 0 where
  pub same_name : r.command_name ≡ command_name
  pub same_hash : r.payload_hash ≡ payload_hash
  pub has_result : r.result_json ≡ some result

pub resolve-IsCompleted :
    (r : IdempotencyRecord) (n h : String) (j : JsonValue)
    → IsCompleted n h j r
    → resolve r n h ≡ ok (record { record_id = r.id; is_replay = true; result = j })
unfolding resolve
resolve-IsCompleted r n h j c =
    ground (arith, c.same_name, c.same_hash, c.has_result, ==_refl n, ==_refl h)

pub resolve-ok :
    (r : IdempotencyRecord) (n h : String) (made : IdempotencyReservation)
    → resolve r n h ≡ ok made
    → IsCompleted n h made.result r × (made.is_replay ≡ true)
unfolding resolve
resolve-ok r n h made p = ground (arith, ==→≡ r.command_name n, ==→≡ r.payload_hash h)

pub resolve-conflict :
    (r : IdempotencyRecord) (n h : String)
    → (r.command_name == n && r.payload_hash == h) ≡ false
    → resolve r n h ≡ err idempotency_conflict
unfolding resolve
resolve-conflict r n h p = ground arith

insert-rows :
    (row : IdempotencyRecord) (db db' : Db)
    → insert_idempotency_record row db ≡ ok db'
    → db'.idempotency_records ≡ row ∷ db.idempotency_records
unfolding insert_idempotency_record
insert-rows row db db' h = ground arith

module _ (env : Env) (s n k : String) (p : JsonValue) (w : World) where
  pub reserve-found :
      (r : IdempotencyRecord)
      → Text.is_empty n ≡ false
      → Text.is_empty k ≡ false
      → find s k w.db ≡ some r
      → reserve env s n k p w ≡ (resolve r n (canonical_payload_hash env p), w)
  unfolding reserve ◌>>=◌ reserve_found
  reserve-found r en ek found = rw (en, ek, found) refl

  -- A key that a row holds for another command, or for another payload's hash, is refused as a
  -- conflict, and nothing is written.
  pub reserve-conflict :
      (r : IdempotencyRecord)
      → Text.is_empty n ≡ false
      → Text.is_empty k ≡ false
      → find s k w.db ≡ some r
      → (r.command_name == n && r.payload_hash == canonical_payload_hash env p) ≡ false
      → reserve env s n k p w ≡ (err idempotency_conflict, w)
  reserve-conflict r en ek found other =
      reserve-found r en ek found
      ∙ ap (λ answer. (answer, w)) (resolve-conflict r n (canonical_payload_hash env p) other)

  -- A command without a name or a key is refused.
  pub reserve-named :
      {made : IdempotencyReservation}
      → (reserve env s n k p w).0 ≡ ok made
      → (Text.is_empty n ≡ false) × (Text.is_empty k ≡ false)
  unfolding reserve ◌>>=◌
  reserve-named h = elim (Bool-cases (Text.is_empty n)) [
    | inl en ↦ absurd (ground (arith, en, h))
    | inr en ↦ elim (Bool-cases (Text.is_empty k)) [
      | inl ek ↦ absurd (ground (arith, en, ek, h))
      | inr ek ↦ (en, ek)
    ]
  ]

  reserve-absent :
      Text.is_empty n ≡ false
      → Text.is_empty k ≡ false
      → find s k w.db ≡ none
      → reserve env s n k p w ≡ reserve_new env s n k (canonical_payload_hash env p) w
  unfolding reserve ◌>>=◌ reserve_found
  reserve-absent en ek none_found = rw (en, ek, none_found) refl

  abbrev pub row_made : IdempotencyRecord
  row_made = new_record (env.uuid4_hex w.calls) s n k (canonical_payload_hash env p)

  reserve_new-rows :
      {made : IdempotencyReservation}
      → (reserve_new env s n k (canonical_payload_hash env p) w).0 ≡ ok made
      → (made ≡ record { record_id = row_made.id; is_replay = false; result = JsonValue.null })
        × ((reserve_new env s n k (canonical_payload_hash env p) w).1.db.idempotency_records
            ≡ row_made ∷ w.db.idempotency_records)
  unfolding reserve_new ◌>>=◌ execute new_record
  reserve_new-rows h = elim (Result-cases (insert_idempotency_record row_made w.db)) [
    | inl (db', e) ↦ (ground (arith, h, e), rw e (insert-rows row_made w.db db' e))
    | inr (x, e) ↦ absurd (ground (arith, h, e))
  ]

  -- A new key is written as a row that is not completed.
  pub reserve-new :
      {made : IdempotencyReservation}
      → find s k w.db ≡ none
      → (reserve env s n k p w).0 ≡ ok made
      → (made ≡ record { record_id = row_made.id; is_replay = false; result = JsonValue.null })
        × ((reserve env s n k p w).1.db.idempotency_records ≡ row_made ∷ w.db.idempotency_records)
  reserve-new none_found h =
      let (en, ek) = reserve-named h in
      let absent = reserve-absent en ek none_found in
      let (made_is, rows) = reserve_new-rows (ap (λ r. r.0) (sym absent) ∙ h) in
      (made_is, ap (λ r. r.1.db.idempotency_records) absent ∙ rows)

pub replay-ok :
    (made : IdempotencyReservation) {o : Option CommandResult}
    → made.is_replay ≡ true
    → replay made ≡ ok o
    → (r : CommandResult) × (o ≡ some r) × (decode_result made.result ≡ ok r)
unfolding replay
replay-ok made again h = elim (Result-cases (decode_result made.result)) [
  | inl (r, d) ↦ (r, ground (arith, again, h, d), d)
  | inr (e, d) ↦ absurd (ground (arith, again, h, d))
]
