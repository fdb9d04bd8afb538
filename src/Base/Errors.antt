-- ===== src/Base/Errors.antt =====
-- Python exceptions as values. One constructor for each exception class that the modelled code
-- raises; messages are left out.
use mathlib.Core.Path.{◌≡◌, refl}
use mathlib.Core.Logic.{◌⊎◌, inl, inr}
use mathlib.Core.Bool.{Bool, true, false}
use personal_finance_public.Base.Tests.{⊤}

pub data Error : Type 0 where
  invalid_amount currency_mismatch unbalanced_transaction invalid_lifecycle ownership : Error
  archived_entity entity_not_found duplicate_name immutable_ledger : Error
  idempotency_conflict idempotency_in_progress : Error
  ineligible_account ineligible_entry duplicate_completed_membership non_zero_difference : Error
  authentication_failed bootstrap_required bootstrap_already_completed : Error
  audit_metadata_rejected audit_store_error multiple_results : Error
  value_error type_error runtime_error integrity_error : Error

pub data Result {ℓ} (A : Type ℓ) : Type ℓ where
  ok : A → Result A
  err : Error → Result A

abbrev pub raise_if : Bool → Error → Result ⊤
raise_if true e = err e
raise_if false e = ok tt

pub Result-cases {ℓ} :
    {A : Type ℓ} (r : Result A) → ((a : A) × (r ≡ ok a)) ⊎ ((e : Error) × (r ≡ err e))
Result-cases (ok a) = inl (a, refl)
Result-cases (err e) = inr (e, refl)

-- Calls of pure code that may raise, one after the other.
module _ {ℓ κ} {A : Type ℓ} {B : Type κ} where
  infixl 5 ◌>>=◌
  abbrev pub ◌>>=◌ : Result A → (A → Result B) → Result B
  err raised >>= next = err raised
  ok value >>= next = next value

  -- What a chain that returned has been through.
  pub >>=-eq-ok :
      (first : Result A) (next : A → Result B) {out : B}
      → (first >>= next) ≡ ok out
      → (value : A) × (first ≡ ok value) × (next value ≡ ok out)
  >>=-eq-ok (err raised) next h = cc
  >>=-eq-ok (ok value) next h = (value, refl, h)

module _ {ℓ} {B : Type ℓ} where
  infixl 5 ◌>>◌
  abbrev pub ◌>>◌ : Result ⊤ → Result B → Result B
  check >> rest = check >>= (λ done. rest)

pub raise_if-ok : (b : Bool) (e : Error) → raise_if b e ≡ ok tt → b ≡ false
raise_if-ok true e h = cc
raise_if-ok false e h = refl
