-- ===== src/Reconciliation/Balance.antt =====
-- The constructor and `complete` of backend/app/reconciliation/domain/reconciliation.py.
use personal_finance_public.Base.{
  String, Option-cases, ◌∙◌, sym, some, List, [], ◌∷◌, All, find?, ◌==◌, ==→≡, ◌≤◌, true, false,
  ◌≡◌, refl, ap, any, map, arith, ok, err, ◌≢◌, ◌⊎◌, inl, inr, Bool-cases, non_zero_difference,
}
use mathlib.Core.List.{Mem, mem-cons_self, mem-cons_of_mem}
use personal_finance_public.Base.Int.{
  ℤ, pos, ◌+ℤ◌, ◌-ℤ◌, eq_ℤ, pos_part, neg_part, -ℤ_parts, eq_of_parts,
}
use personal_finance_public.Reconciliation.{
  ReconciliationCandidate, Reconciliation, completed, outside, candidate_of, distinct,
  new_reconciliation, selected_effect_cents, checked_balance_cents, difference_cents,
  complete_reconciliation,
}

-- What the constructor checks.
pub record IsValid (r : Reconciliation) : Type 0 where
  pub unique_candidates : distinct (map (λ c. c.entry_id) r.candidates) ≡ true
  pub selected_inside : any (λ i. outside r (candidate_of r i)) r.selection ≡ false

pub new_reconciliation-IsValid :
    (r : Reconciliation) {made : Reconciliation}
    → new_reconciliation r ≡ ok made
    → IsValid r × (made ≡ r)
unfolding new_reconciliation
new_reconciliation-IsValid r h =
    (record { unique_candidates = ground arith; selected_inside = ground arith }, ground arith)

-- What an entry identifier of a selection stands for: a candidate of the reconciliation's own space
-- and account, dated up to its cutoff date.
pub record IsOffered (r : Reconciliation) (entry_id : String) : Type 0 where
  pub candidate : ReconciliationCandidate
  pub offered : Mem candidate r.candidates
  pub identified : candidate.entry_id ≡ entry_id
  pub in_space : candidate.space_id ≡ r.space_id
  pub on_account : candidate.account_id ≡ r.account_id
  pub in_time : candidate.eligibility_date ≤ r.cutoff_date

find-Mem :
    (i : String) (candidates : List ReconciliationCandidate) {c : ReconciliationCandidate}
    → find? (λ c. c.entry_id == i) candidates ≡ some c
    → Mem c candidates × (c.entry_id ≡ i)
find-Mem i [] h = absurd (ground (arith, h))
find-Mem i (x ∷ candidates) {c} h = elim (Bool-cases (x.entry_id == i)) [
  | inl here ↦
      let same : x ≡ c = ground (arith, h, here) in
      rw⁻¹ same (mem-cons_self, ==→≡ x.entry_id i here)
  | inr other ↦
      let (there, named) = find-Mem i candidates (ground (arith, h, other)) in
      (mem-cons_of_mem x there, named)
]

inside-IsOffered :
    (r : Reconciliation) (i : String) → outside r (candidate_of r i) ≡ false → IsOffered r i
inside-IsOffered r i h = elim (Option-cases (candidate_of r i)) [
  | inr (c, found) ↦
      let inside : outside r (some c) ≡ false = ap (outside r) (sym found) ∙ h in
      let (there, named) = find-Mem i r.candidates found in
      record {
        candidate = c;
        offered = there;
        identified = named;
        in_space = ==→≡ c.space_id r.space_id (ground (arith, inside));
        on_account = ==→≡ c.account_id r.account_id (ground (arith, inside));
        in_time = ground (arith, inside);
      }
  | inl absent ↦ absurd (ground (arith, absent, h))
]

selected-IsOffered :
    (r : Reconciliation) (ids : List String)
    → any (λ i. outside r (candidate_of r i)) ids ≡ false
    → All (IsOffered r) ids
selected-IsOffered r [] h = tt
selected-IsOffered r (i ∷ ids) h =
    (inside-IsOffered r i (ground (arith, h)), selected-IsOffered r ids (ground (arith, h)))

-- A reconciliation that is constructed is what was given, and each entry that it selects is that of a
-- candidate it offers, in its space and on its account and dated up to its cutoff date.
pub new_reconciliation-IsOffered :
    (r : Reconciliation) {made : Reconciliation}
    → new_reconciliation r ≡ ok made
    → (made ≡ r) × All (IsOffered r) r.selection
new_reconciliation-IsOffered r h =
    let (valid, same) = new_reconciliation-IsValid r h in
    (same, selected-IsOffered r r.selection valid.selected_inside)

IsValid-new_reconciliation :
    (r : Reconciliation)
    → IsValid r
    → new_reconciliation (record r { status = completed }) ≡ ok (record r { status = completed })
unfolding new_reconciliation
IsValid-new_reconciliation r v = rw (v.unique_candidates, v.selected_inside) refl

difference_zero : (o c : ℤ) → o ≡ c → eq_ℤ (o -ℤ c) (pos 0) ≡ true
difference_zero o c h = ground (arith, -ℤ_parts o c, ap pos_part h, ap neg_part h)

zero_difference : (o c : ℤ) → eq_ℤ (o -ℤ c) (pos 0) ≡ true → o ≡ c
zero_difference o c h = eq_of_parts o c (ground (arith, -ℤ_parts o c))

-- A valid reconciliation either completes, when the observed balance is the prior completed balance
-- and the selected effects together, and then only its status changes, or is refused for its
-- difference, when the two are not equal.
pub complete_reconciliation-exact :
    (r : Reconciliation)
    → IsValid r
    → ((complete_reconciliation r ≡ ok (record r { status = completed }))
        × (r.observed_balance_cents ≡ r.prior_completed_cents +ℤ selected_effect_cents r))
      ⊎ ((complete_reconciliation r ≡ err non_zero_difference)
          × (r.observed_balance_cents ≢ r.prior_completed_cents +ℤ selected_effect_cents r))
unfolding complete_reconciliation difference_cents checked_balance_cents
complete_reconciliation-exact r v = elim (Bool-cases (eq_ℤ (difference_cents r) (pos 0))) [
  | inl zero ↦
      let same = zero_difference _ _ zero in
      inl (rw (difference_zero _ _ same) (IsValid-new_reconciliation r v), same)
  | inr other ↦
      inr (ground (arith, other), λ h. absurd (ground (arith, difference_zero _ _ h, other)))
]
