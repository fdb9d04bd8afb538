-- ===== src/Storage/Schema/Updates.antt =====
-- Updates of the table `transactions`, under the triggers.
use personal_finance_public.Base.{
  String, ℕ, ◌≡◌, refl, sym, ap, ◌∙◌, Option, some, Bool, true, false, arith, ◌==◌, ==→≡, ok,
  Bool-cases, Option-cases, inl, inr, if◌then◌else◌,
}
use personal_finance_public.Base.Int.{pos, eq_ℤ→≡}
use personal_finance_public.Domain.Transaction.{Date, TransactionKind}
use personal_finance_public.Storage.Table.{lookup, update, lookup-update, key-lookup}
use personal_finance_public.Storage.Schema.{
  RecordState, is_history, TransactionRecord, Db, transaction_keyed,
}
use personal_finance_public.Storage.Schema.Triggers.{becomes_posted, posting_guard, allowed_move}
use personal_finance_public.Storage.Schema.Statements.{set_state, set_snapshot, guarded_update}
use personal_finance_public.Storage.Schema.Soundness.{
  IsBalanced, IsSound, SameSnapshot, Kept, Grows, Grows-refl, Kept-refl,
}

-- A row becomes history only by being posted.
abbrev pub enters_posted : RecordState → RecordState → Bool
enters_posted RecordState.draft RecordState.reconciled = false
enters_posted RecordState.draft RecordState.voided = false
enters_posted RecordState.posting RecordState.reconciled = false
enters_posted RecordState.posting RecordState.voided = false
enters_posted _ _ = true

not_history_posts :
    (a b : RecordState)
    → enters_posted a b ≡ true
    → is_history a ≡ false
    → is_history b ≡ true
    → becomes_posted a b ≡ true
not_history_posts a b e p q = ground arith

stays_out : (a b : RecordState) → is_history b ≡ false → enters_posted a b ≡ true
stays_out a b h = ground arith

history_stays :
    (a b : RecordState) → is_history a ≡ true → allowed_move a b ≡ true → is_history b ≡ true
history_stays a b h p = ground arith

-- What an update that is not aborted has passed.
guarded_update-ok :
    (old new : TransactionRecord) (db : Db) {db' : Db}
    → guarded_update old new db ≡ ok db'
    → (posting_guard db.entries old new ≡ false)
      × (allowed_move old.state new.state ≡ true)
      × (db' ≡ record db { transactions = update new db.transactions })
unfolding guarded_update
guarded_update-ok old new db h = (ground arith, ground arith, ground arith)

-- An update whose guards pass.
module _ (old new : TransactionRecord) (db : Db) (found : lookup old.id db.transactions ≡ some old)
    (same_id : new.id ≡ old.id) (same_space : new.space_id ≡ old.space_id)
    (snapshot : is_history old.state ≡ true → SameSnapshot old new)
    (guarded : posting_guard db.entries old new ≡ false)
    (moved : allowed_move old.state new.state ≡ true)
    (entered : enters_posted old.state new.state ≡ true) where
  lookup-updated :
      (id : String)
      → lookup id (update new db.transactions)
        ≡ (if old.id == id then some new else lookup id db.transactions)
  lookup-updated id = elim (Bool-cases (old.id == id)) [
    | inl same ↦
        rw (lookup-update id new db.transactions, same_id, same)
          (rw (ap (λ x. lookup x db.transactions) (sym (==→≡ old.id id same)) ∙ found))
    | inr other ↦ rw (lookup-update id new db.transactions, same_id, other)
  ]

  -- The new row balances: it passed the guard, or was history before.
  new-IsBalanced : IsSound db → is_history new.state ≡ true → IsBalanced db.entries new
  unfolding posting_guard
  new-IsBalanced s h = elim (Bool-cases (is_history old.state)) [
    | inl was ↦
        let b = s.history_balanced old.id old found was in
        record {
          several = rw (same_id, same_space) b.several;
          balanced = rw (same_id, same_space) b.balanced;
        }
    | inr fresh ↦
        let posts = not_history_posts old.state new.state entered fresh h in
        record { several = ground arith; balanced = eq_ℤ→≡ _ (pos 0) (ground arith) }
  ]

  Kept-new : (h : is_history old.state ≡ true) → Kept old (some new)
  Kept-new h = (snapshot h, moved, history_stays old.state new.state h moved)

  pub update-Grows : Grows db (record db { transactions = update new db.transactions })
  update-Grows = record {
    sound = λ s. record {
      history_balanced = λ id t f h. elim (Bool-cases (old.id == id)) [
        | inl same ↦
            let e : t ≡ new = ground (arith, lookup-updated id) in
            rw e (new-IsBalanced s (rw e at h))
        | inr other ↦ s.history_balanced id t (ground (arith, lookup-updated id)) h
      ];
    };
    preserves = record {
      kept = λ id t f h. rw (lookup-updated id) (elim (Bool-cases (old.id == id)) [
        | inl same ↦
            let e : t ≡ old =
              ground (arith, ap (λ x. lookup x db.transactions) (==→≡ old.id id same)) in
            rw (same, e) (Kept-new (rw e at h))
        | inr other ↦ rw (other, f) (Kept-refl t h)
      ]);
      entries_kept = λ id t f h. refl;
    };
  }

same_state_snapshot :
    (old : TransactionRecord) (state : RecordState) (posted_at : Option ℕ)
    → SameSnapshot old (record old { state = state; posted_at = posted_at })
same_state_snapshot old state posted_at = ground arith

pub set_state-Grows :
    (id : String) (state : RecordState) (posted_at : Option ℕ) (db db' : Db)
    → ((old : TransactionRecord)
        → lookup id db.transactions ≡ some old
        → enters_posted old.state state ≡ true)
    → set_state id state posted_at db ≡ ok db'
    → Grows db db'
unfolding set_state
set_state-Grows id state posted_at db db' entered h =
    elim (Option-cases (lookup id db.transactions)) [
      | inl absent ↦ let e : db' ≡ db = ground arith in rw e (Grows-refl db)
      | inr (old, found) ↦
          let key : old.id ≡ id = key-lookup id db.transactions found in
          let new : TransactionRecord = record old { state = state; posted_at = posted_at } in
          let e : guarded_update old new db ≡ ok db' = ground arith in
          let (guarded, moved, done) = guarded_update-ok old new db e in
          rw done (
            update-Grows old new db (ap (λ x. lookup x db.transactions) key ∙ found) refl refl
              (λ _. same_state_snapshot old state posted_at) guarded moved (entered old found))
    ]

-- A snapshot is set only on a row that is not history, and does not make it history.
pub set_snapshot-Grows :
    (id : String) (kind : TransactionKind) (economic_date : Date) (cash_date : Option Date)
    (description : Option String) (state : RecordState) (db db' : Db)
    → is_history state ≡ false
    → set_snapshot id kind economic_date cash_date description state db ≡ ok db'
    → Grows db db'
unfolding set_snapshot
set_snapshot-Grows id kind economic_date cash_date description state db db' ready h =
    elim (Option-cases (lookup id db.transactions)) [
      | inl absent ↦ let e : db' ≡ db = ground arith in rw e (Grows-refl db)
      | inr (old, found) ↦
          let key : old.id ≡ id = key-lookup id db.transactions found in
          let new : TransactionRecord = record old {
            kind = kind;
            economic_date = economic_date;
            cash_date = cash_date;
            description = description;
            state = state;
          } in
          let not_yet : is_history old.state ≡ false = ground arith in
          let e : guarded_update old new db ≡ ok db' = ground arith in
          let (guarded, moved, done) = guarded_update-ok old new db e in
          rw done (
            update-Grows old new db (ap (λ x. lookup x db.transactions) key ∙ found) refl refl
              (λ was. cc (was, not_yet)) guarded moved (stays_out old.state state ready))
    ]
