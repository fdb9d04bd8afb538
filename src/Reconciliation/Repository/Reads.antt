-- ===== src/Reconciliation/Repository/Reads.antt =====
-- What the queries of a draft read from the database.
use personal_finance_public.Base.{String, ◌≡◌, ap, ◌∙◌, sym, List, arith, ok}
use personal_finance_public.Base.Int.{ℤ, sum}
use personal_finance_public.Domain.Transaction.{Date}
use personal_finance_public.Storage.World.{World}
use personal_finance_public.Storage.World.Rules.{Keeps, keeps_rules}
use personal_finance_public.Storage.World.Runs.{bind-ok}
use personal_finance_public.Ledger.Calls.Clean.{Unchanged, Unchanged-preorder}
use personal_finance_public.Reconciliation.{ReconciliationCandidate}
use personal_finance_public.Reconciliation.Repository.{
  get_account, list_candidates, candidates_of, prior_completed_cents, completed_effects,
}

get_account-Unchanged : (s a : String) → Keeps Unchanged (get_account s a)
unfolding get_account
get_account-Unchanged s a = search (keeps_rules, Unchanged-preorder) depth 16

pub list_candidates-Unchanged : (s a : String) (d : Date) → Keeps Unchanged (list_candidates s a d)
unfolding list_candidates
list_candidates-Unchanged s a d = search (keeps_rules, Unchanged-preorder, get_account-Unchanged)

pub list_candidates-ok :
    (s a : String) (d : Date) (w : World) {candidates : List ReconciliationCandidate}
    → (list_candidates s a d w).0 ≡ ok candidates
    → candidates ≡ candidates_of s a d w.db
unfolding list_candidates
list_candidates-ok s a d w {candidates} h =
    let (_, _, e) = bind-ok (get_account s a) _ w h in
    let w1 = (get_account s a w).1 in
    let read : candidates ≡ candidates_of s a d w1.db = ground (arith, ap (λ x. x.0) (sym e) ∙ h) in
    read ∙ ap (candidates_of s a d) ((get_account-Unchanged s a).at w).same

pub prior_completed_cents-ok :
    (s a : String) (d : Date) (w : World) {prior : ℤ}
    → (prior_completed_cents s a d w).0 ≡ ok prior
    → prior ≡ sum (completed_effects s a d w.db w.db.reconciliation_entries)
unfolding prior_completed_cents
prior_completed_cents-ok s a d w {prior} h =
    let (_, _, e) = bind-ok (get_account s a) _ w h in
    let w1 = (get_account s a w).1 in
    let read : prior ≡ sum (completed_effects s a d w1.db w1.db.reconciliation_entries) =
      ground (arith, ap (λ x. x.0) (sym e) ∙ h) in
    read
    ∙ ap (λ db. sum (completed_effects s a d db db.reconciliation_entries))
        ((get_account-Unchanged s a).at w).same
