-- ===== src/Reconciliation/Repository/Candidates.antt =====
-- What the query of the candidates returns.
use personal_finance_public.Base.{
  ap, ◌∙◌, ◌=?◌, String, true, false, ◌≡◌, refl, Option, none, some, List, [], ◌∷◌, All,
  All-sort_by, arith, Bool-cases, inl, inr, ==→≡,
}
use mathlib.Core.List.{Mem, mem-cons_self, mem-cons_of_mem}
use personal_finance_public.Domain.Entry.{signed_cents}
use personal_finance_public.Domain.Transaction.{Date}
use personal_finance_public.Storage.Table.{lookup}
use personal_finance_public.Storage.Schema.{
  Db, is_history, TransactionRecord, EntryRecord, transaction_keyed,
}
use personal_finance_public.Reconciliation.{ReconciliationCandidate, is_eligible, date_of}
use personal_finance_public.Reconciliation.Repository.{
  joined, already_completed, candidate_row, is_open, candidate_at, candidate_rows, candidate_le,
  candidates_of,
}

-- A candidate stands for a stored entry, in the space and on the account that were asked for, with
-- the entry's signed cents and its transaction, which is history; it is dated as that transaction is,
-- up to the cutoff, and the entry is in no completed reconciliation.
pub record IsOpenCandidate (space_id account_id : String) (cutoff_date : Date) (db : Db)
    (c : ReconciliationCandidate) : Type 0 where
  pub stored_row : EntryRecord
  pub stored : Mem stored_row db.entries
  pub its_entry : c.entry_id ≡ stored_row.entry.id
  pub in_space : stored_row.entry.space_id ≡ space_id
  pub on_account : stored_row.entry.account_id ≡ some account_id
  pub effect : c.signed_effect_cents ≡ signed_cents stored_row.entry
  pub transaction : TransactionRecord
  pub its_transaction : lookup stored_row.transaction_id db.transactions ≡ some transaction
  pub same_transaction : c.transaction_id ≡ transaction.id
  pub same_space : transaction.space_id ≡ space_id
  pub in_history : is_history transaction.state ≡ true
  pub dated :
      c.eligibility_date ≡ date_of transaction.kind transaction.economic_date transaction.cash_date
  pub up_to_cutoff : is_eligible c cutoff_date ≡ true
  pub its_space : c.space_id ≡ space_id
  pub its_account : c.account_id ≡ account_id
  pub not_completed : already_completed stored_row.entry.id db ≡ false

joined-found :
    (e : EntryRecord) (db : Db) (t : TransactionRecord)
    → joined e db ≡ some t
    → (lookup e.transaction_id db.transactions ≡ some t) × (t.space_id ≡ e.entry.space_id)
joined-found e db t h = (ground arith, ground (arith, ==→≡ t.space_id e.entry.space_id))

account-found : (o : Option String) (a : String) → (o =? a) ≡ true → o ≡ some a
account-found none a h = cc
account-found (some b) a h = ap some (==→≡ b a h)

module _ (s a : String) (d : Date) (db : Db) where
  row-IsOpenCandidate :
      (e : EntryRecord) (t : TransactionRecord)
      → Mem e db.entries
      → joined e db ≡ some t
      → is_open s a d db e t ≡ true
      → IsOpenCandidate s a d db (candidate_row a e t)
  row-IsOpenCandidate e t there found h =
      let (at, spaces) = joined-found e db t found in
      let own : e.entry.space_id ≡ s = ==→≡ e.entry.space_id s (ground (arith, h)) in
      record {
        stored_row = e;
        stored = there;
        its_entry = refl;
        in_space = own;
        on_account = account-found e.entry.account_id a (ground (arith, h));
        effect = refl;
        transaction = t;
        its_transaction = at;
        same_transaction = refl;
        same_space = spaces ∙ own;
        in_history = ground (arith, h);
        dated = refl;
        up_to_cutoff = ground (arith, h);
        its_space = own;
        its_account = refl;
        not_completed = ground (arith, h);
      }

  at-All :
      (e : EntryRecord) (o : Option TransactionRecord) (rest : List ReconciliationCandidate)
      → Mem e db.entries
      → joined e db ≡ o
      → All (IsOpenCandidate s a d db) rest
      → All (IsOpenCandidate s a d db) (candidate_at s a d db e o rest)
  at-All e none rest there found all = all
  at-All e (some t) rest there found all = elim (Bool-cases (is_open s a d db e t)) [
    | inl taken ↦ rw taken (row-IsOpenCandidate e t there found taken, all)
    | inr left ↦ rw left all
  ]

  rows-All :
      (rows : List EntryRecord)
      → ((e : EntryRecord) → Mem e rows → Mem e db.entries)
      → All (IsOpenCandidate s a d db) (candidate_rows s a d db rows)
  rows-All [] inside = tt
  rows-All (e ∷ rows) inside =
      at-All e (joined e db) _ (inside e mem-cons_self) refl
        (rows-All rows (λ x m. inside x (mem-cons_of_mem e m)))

  -- Every candidate of the query stands for a stored entry of the space and on the account, with its
  -- signed cents, whose transaction is history and dated up to the cutoff, and which is in no
  -- completed reconciliation.
  pub candidates_of-IsOpenCandidate : All (IsOpenCandidate s a d db) (candidates_of s a d db)
  unfolding candidates_of
  candidates_of-IsOpenCandidate = All-sort_by candidate_le _ _ (rows-All db.entries (λ e m. m))
