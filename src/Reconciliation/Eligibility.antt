-- ===== src/Reconciliation/Eligibility.antt =====
-- `from_ledger` of backend/app/reconciliation/domain/reconciliation.py.
use personal_finance_public.Base.{
  true, false, ◌≡◌, none, some, any, arith, ok, ==→≡, ap, ◌∙◌, Option-cases, inl, inr,
}
use personal_finance_public.Domain.Account.{Account, is_equity}
use personal_finance_public.Domain.Entry.{Entry, signed_cents}
use personal_finance_public.Domain.Transaction.{Transaction, is_draft}
use personal_finance_public.Reconciliation.{ReconciliationCandidate, eq_entry, date_of, from_ledger}

-- The entry moves an open, reconcilable account of its own space, and stands in a transaction that
-- is no longer a draft; the candidate has the entry's signed cents and the date that counts.
pub record IsCandidate (a : Account) (t : Transaction) (e : Entry) (c : ReconciliationCandidate)
    : Type 0 where
  pub open_account : a.is_archived ≡ false
  pub reconcilable : a.is_reconcilable ≡ true
  pub not_equity : is_equity a.kind ≡ false
  pub its_account : e.account_id ≡ some a.id
  pub no_category : e.category_id ≡ none
  pub entry_space : e.space_id ≡ a.space_id
  pub transaction_space : t.space_id ≡ a.space_id
  pub in_transaction : any (λ x. eq_entry x e) t.entries ≡ true
  pub not_draft : is_draft t.status ≡ false
  pub same_entry : c.entry_id ≡ e.id
  pub effect : c.signed_effect_cents ≡ signed_cents e
  pub counted_on : c.eligibility_date ≡ date_of t.kind t.economic_date t.cash_date

-- Whatever is taken from the ledger as a candidate meets the conditions of `IsCandidate`: an open,
-- reconcilable account that is not equity, an entry of it in a transaction of its space that is not
-- a draft, and the entry's signed cents.
pub from_ledger-IsCandidate :
    (a : Account) (t : Transaction) (e : Entry) {c : ReconciliationCandidate}
    → from_ledger a t e ≡ ok c
    → IsCandidate a t e c
unfolding from_ledger
from_ledger-IsCandidate a t e h = record {
  open_account = ground arith;
  reconcilable = ground arith;
  not_equity = ground arith;
  its_account = elim (Option-cases e.account_id) [
    | inl absent ↦ absurd (ground (arith, absent, h))
    | inr (i, present) ↦ present ∙ ap some (==→≡ i a.id (ground (arith, present, h)))
  ];
  no_category = ground arith;
  entry_space = ground (arith, ==→≡ e.space_id a.space_id);
  transaction_space = ground (arith, ==→≡ t.space_id a.space_id);
  in_transaction = ground arith;
  not_draft = ground arith;
  same_entry = ground arith;
  effect = ground arith;
  counted_on = ground arith;
}
