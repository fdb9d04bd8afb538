-- ===== src/Storage/Schema/Soundness.antt =====
-- What the triggers are for: history balances, and no accepted statement changes it.
use personal_finance_public.Base.{
  String, ◌≤◌, ◌≡◌, refl, ◌∙◌, Option, none, some, true, List, length, arith,
}
use personal_finance_public.Base.Int.{pos}
use personal_finance_public.Storage.Table.{lookup}
use personal_finance_public.Storage.Schema.{
  RecordState, is_history, TransactionRecord, EntryRecord, Db, transaction_keyed,
}
use personal_finance_public.Storage.Schema.Triggers.{entries_of, signed_sum, allowed_move}

-- Two entries or more that sum to zero.
pub record IsBalanced (entries : List EntryRecord) (t : TransactionRecord) : Type 0 where
  pub several : 2 ≤ length (entries_of t.id t.space_id entries)
  pub balanced : signed_sum (entries_of t.id t.space_id entries) ≡ pos 0

-- Every transaction that is history balances.
pub record IsSound (db : Db) : Type 0 where
  pub history_balanced :
      (id : String) (t : TransactionRecord)
      → lookup id db.transactions ≡ some t
      → is_history t.state ≡ true
      → IsBalanced db.entries t

-- The columns of a posted snapshot.
pub record SameSnapshot (t u : TransactionRecord) : Type 0 where
  pub same_id : u.id ≡ t.id
  pub same_space : u.space_id ≡ t.space_id
  pub same_kind : u.kind ≡ t.kind
  pub same_economic_date : u.economic_date ≡ t.economic_date
  pub same_cash_date : u.cash_date ≡ t.cash_date
  pub same_description : u.description ≡ t.description

-- A transaction that was history is there still: the same snapshot, in a state that has not moved
-- back.
abbrev pub Kept : TransactionRecord → Option TransactionRecord → Type 0
Kept t none = ⊥
Kept t (some u) =
    SameSnapshot t u × (allowed_move t.state u.state ≡ true) × (is_history u.state ≡ true)

pub record Preserves (db db' : Db) : Type 0 where
  pub kept :
      (id : String) (t : TransactionRecord)
      → lookup id db.transactions ≡ some t
      → is_history t.state ≡ true
      → Kept t (lookup id db'.transactions)
  pub entries_kept :
      (id : String) (t : TransactionRecord)
      → lookup id db.transactions ≡ some t
      → is_history t.state ≡ true
      → entries_of t.id t.space_id db'.entries ≡ entries_of t.id t.space_id db.entries

-- Both at once: the relation that every statement, and so every command, is in.
pub record Grows (db db' : Db) : Type 0 where
  pub sound : IsSound db → IsSound db'
  pub preserves : Preserves db db'

pub SameSnapshot-refl : (t : TransactionRecord) → SameSnapshot t t
SameSnapshot-refl t = ground arith

pub Kept-refl : (t : TransactionRecord) → is_history t.state ≡ true → Kept t (some t)
Kept-refl t h = ground arith

pub Grows-refl : (db : Db) → Grows db db
Grows-refl db = record {
  sound = λ h. h;
  preserves = record {
    kept = λ id t found h. rw found (Kept-refl t h);
    entries_kept = λ id t found h. refl;
  };
}

allowed_move_trans :
    (a b c : RecordState)
    → is_history a ≡ true
    → allowed_move a b ≡ true
    → allowed_move b c ≡ true
    → allowed_move a c ≡ true
allowed_move_trans a b c h p q = ground arith

Kept-trans :
    (t u : TransactionRecord) (o : Option TransactionRecord)
    → is_history t.state ≡ true
    → Kept t (some u)
    → Kept u o
    → Kept t o
Kept-trans t u none h a b = b
Kept-trans t u (some v) h a b = ground (arith, allowed_move_trans t.state u.state v.state h a.1 b.1)

pub Kept-some :
    (t : TransactionRecord) (o : Option TransactionRecord)
    → Kept t o
    → (u : TransactionRecord) × (o ≡ some u) × Kept t (some u)
Kept-some t none h = absurd h
Kept-some t (some u) h = (u, refl, h)

pub Grows-trans : (a b c : Db) → Grows a b → Grows b c → Grows a c
Grows-trans a b c p q = record {
  sound = λ h. q.sound (p.sound h);
  preserves = record {
    kept = λ id t found h.
        let (u, found', k) = Kept-some t _ (p.preserves.kept id t found h) in
        Kept-trans t u _ h k (q.preserves.kept id u found' k.2);
    entries_kept = λ id t found h.
        let (u, found', k) = Kept-some t _ (p.preserves.kept id t found h) in
        (rw (k.0.same_id, k.0.same_space) at (q.preserves.entries_kept id u found' k.2))
        ∙ p.preserves.entries_kept id t found h;
  };
}

-- A statement that leaves the two tables of the ledger alone.
pub Grows-same :
    (db db' : Db) → db'.transactions ≡ db.transactions → db'.entries ≡ db.entries → Grows db db'
Grows-same db db' p q = record {
  sound = λ s. record {
    history_balanced = λ id t found h. rw q (s.history_balanced id t (rw p at found) h);
  };
  preserves = record {
    kept = λ id t found h. rw (p, found) (Kept-refl t h);
    entries_kept = λ id t found h. rw q;
  };
}
