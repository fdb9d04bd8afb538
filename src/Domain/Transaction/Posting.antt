-- ===== src/Domain/Transaction/Posting.antt =====
-- `Transaction.posted` of backend/app/ledger/domain/transaction.py against what a posting is.
use personal_finance_public.Base.{
  String, ◌≤◌, ◌≡◌, Option, Bool, true, false, not, is_some, List, any, length, map, arith, ◌==◌,
  ok, >>=-eq-ok,
}
use personal_finance_public.Base.Int.{pos, sum}
use personal_finance_public.Domain.Entry.{Entry, signed_cents}
use personal_finance_public.Domain.Transaction.{
  Date, TransactionKind, Transaction, posted, validate_posting, new_posted,
}

-- Two entries or more that sum to zero and belong to one space.
pub record IsPosting (space_id : String) (entries : List Entry) : Type 0 where
  pub several : 2 ≤ length entries
  pub balanced : sum (map signed_cents entries) ≡ pos 0
  pub owned : any (λ entry. not (entry.space_id == space_id)) entries ≡ false

-- An opening has no cash date, a reversal may have one, and every other kind has one.
abbrev pub cash_date_fits : TransactionKind → Option Date → Bool
cash_date_fits TransactionKind.opening cash_date = not (is_some cash_date)
cash_date_fits TransactionKind.reversal cash_date = true
cash_date_fits _ cash_date = is_some cash_date

pub validate_posting-IsPosting :
    (space_id : String) (entries : List Entry) {checked : List Entry}
    → validate_posting space_id entries ≡ ok checked
    → IsPosting space_id entries
unfolding validate_posting
validate_posting-IsPosting space_id entries h = record {
  several = ground arith;
  balanced = ground arith;
  owned = ground arith;
}

pub IsPosting-validate_posting :
    (space_id : String) (entries : List Entry)
    → IsPosting space_id entries
    → validate_posting space_id entries ≡ ok entries
unfolding validate_posting
IsPosting-validate_posting space_id entries h = rw (h.balanced, h.owned) (ground (arith, h.several))

module _ (transaction_id space_id : String) (kind : TransactionKind) (economic_date : Date)
    (cash_date : Option Date) (description : Option String) (entries : List Entry) where
  -- The transaction that a posting of these fields creates.
  abbrev pub posting : Transaction
  posting = record {
    id = transaction_id;
    space_id = space_id;
    kind = kind;
    status = posted;
    economic_date = economic_date;
    cash_date = cash_date;
    description = description;
    entries = entries;
  }

  -- What is posted is a balanced posting of its own space with a fitting cash date.
  pub new_posted_sound :
      {t : Transaction}
      → new_posted transaction_id space_id kind economic_date cash_date description entries ≡ ok t
      → IsPosting space_id entries × (cash_date_fits kind cash_date ≡ true) × (t ≡ posting)
  unfolding new_posted
  new_posted_sound h =
      let (checked, valid, rest) = >>=-eq-ok (validate_posting space_id entries) _ h in
      (validate_posting-IsPosting space_id entries valid, ground arith, ground arith)

  -- Such a posting is never refused.
  pub new_posted_complete :
      IsPosting space_id entries
      → cash_date_fits kind cash_date ≡ true
      → new_posted transaction_id space_id kind economic_date cash_date description entries
        ≡ ok posting
  unfolding new_posted
  new_posted_complete h fits = rw (IsPosting-validate_posting space_id entries h) (ground arith)
