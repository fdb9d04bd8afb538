-- ===== src/Storage/Schema/History.antt =====
-- Inserts and deletes on the tables `transactions` and `entries`, under the triggers.
use personal_finance_public.Base.{
  String, ◌≡◌, refl, ap, none, some, true, false, ◌∷◌, arith, ◌==◌, ==→≡, ==_refl, ok, Bool-cases,
  inl, inr,
}
use personal_finance_public.Storage.Table.{lookup, remove, lookup-cons, lookup-remove, key-lookup}
use personal_finance_public.Storage.Schema.{
  is_history, TransactionRecord, EntryRecord, Db, transaction_keyed,
}
use personal_finance_public.Storage.Schema.Triggers.{belongs_to, posted_entry_guard}
use personal_finance_public.Storage.Schema.Statements.{
  insert_transaction, delete_transaction, insert_entry,
}
use personal_finance_public.Storage.Schema.Soundness.{Grows, Kept-refl}

-- A row that is not history may be inserted under a new key.
insert_row-Grows :
    (t : TransactionRecord) (db : Db)
    → lookup t.id db.transactions ≡ none
    → is_history t.state ≡ false
    → Grows db (record db { transactions = t ∷ db.transactions })
insert_row-Grows t db absent new = record {
  sound = λ s. record {
    history_balanced = λ id u found h.
        s.history_balanced id u (ground (arith, lookup-cons id t db.transactions)) h;
  };
  preserves = record {
    kept = λ id u found h. rw (lookup-cons id t db.transactions) (elim (Bool-cases (t.id == id)) [
      | inl same ↦ cc (found, absent, ==→≡ t.id id same)
      | inr other ↦ rw (other, found) (Kept-refl u h)
    ]);
    entries_kept = λ id u found h. refl;
  };
}

pub insert_transaction-Grows :
    (t : TransactionRecord) (db db' : Db)
    → is_history t.state ≡ false
    → insert_transaction t db ≡ ok db'
    → Grows db db'
unfolding insert_transaction
insert_transaction-Grows t db db' new h =
    let e : db' ≡ record db { transactions = t ∷ db.transactions } = ground arith in
    rw e (insert_row-Grows t db (ground arith) new)

delete_row-Grows :
    (id : String) (db : Db) (rest : Db)
    → ((t : TransactionRecord) → lookup id db.transactions ≡ some t → is_history t.state ≡ false)
    → rest.transactions ≡ remove id db.transactions
    → rest.entries ≡ db.entries
    → Grows db rest
delete_row-Grows id db rest not_history gone same = record {
  sound = λ s. record {
    history_balanced = λ j u found h. rw same (
        s.history_balanced j u
          (ground (arith, ap (λ l. lookup j l) gone, lookup-remove id j db.transactions)) h);
  };
  preserves = record {
    kept = λ j u found h.
        rw (gone, lookup-remove id j db.transactions)
          (elim (Bool-cases (id == j)) [
            | inl equal ↦ cc (h, not_history u (rw (==→≡ id j equal) found))
            | inr other ↦ rw (other, found) (Kept-refl u h)
          ]);
    entries_kept = λ j u found h. rw same;
  };
}

pub delete_transaction-Grows :
    (id : String) (db db' : Db) → delete_transaction id db ≡ ok db' → Grows db db'
unfolding delete_transaction
delete_transaction-Grows id db db' h =
    delete_row-Grows id db db' (λ t found. ground arith) (ground arith) (ground arith)

-- A new entry belongs to no transaction that is history.
not-belongs_to :
    (e : EntryRecord) (id : String) (t : TransactionRecord) (db : Db)
    → lookup id db.transactions ≡ some t
    → is_history t.state ≡ true
    → posted_entry_guard db.transactions e ≡ false
    → belongs_to t.id t.space_id e ≡ false
unfolding posted_entry_guard
not-belongs_to e id t db found h guarded = ground (
  arith,
  key-lookup id db.transactions found,
  ==→≡ e.transaction_id t.id,
  ==→≡ e.entry.space_id t.space_id,
  ==_refl t.space_id,
)

pub insert_entry-Grows : (e : EntryRecord) (db db' : Db) → insert_entry e db ≡ ok db' → Grows db db'
unfolding insert_entry
insert_entry-Grows e db db' h =
    let added : db' ≡ record db { entries = e ∷ db.entries } = ground arith in
    let guarded : posted_entry_guard db.transactions e ≡ false = ground arith in
    rw added (record {
      sound = λ s. record {
        history_balanced = λ id t found past.
            let b = s.history_balanced id t found past in
            let apart = not-belongs_to e id t db found past guarded in
            record { several = rw apart b.several; balanced = rw apart b.balanced };
      };
      preserves = record {
        kept = λ id t found past. rw found (Kept-refl t past);
        entries_kept = λ id t found past. rw (not-belongs_to e id t db found past guarded);
      };
    })
