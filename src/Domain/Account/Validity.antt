-- ===== src/Domain/Account/Validity.antt =====
-- What the constructor of backend/app/ledger/domain/account.py checks, and the methods under it.
use personal_finance_public.Base.{String, ◌≡◌, false, ◌&&◌, ◌||◌, ltb, arith, ok}
use personal_finance_public.Base.Text
use personal_finance_public.Base.Text.Strip.{strip-strip}
use personal_finance_public.Domain.Account.{Account, is_equity, validated_name, new_account}

-- A name that `validated_name` returns unchanged.
pub record IsName (name : String) : Type 0 where
  pub trimmed : Text.strip name ≡ name
  pub fits : (Text.is_empty name || ltb 120 (Text.length name)) ≡ false

pub record IsValid (a : Account) : Type 0 where
  pub name_valid : IsName a.name
  pub reconcilable : (is_equity a.kind && a.is_reconcilable) ≡ false

pub validated_name-IsName : (name : String) {n : String} → validated_name name ≡ ok n → IsName n
unfolding validated_name
validated_name-IsName name h = record {
  trimmed = ground (arith, strip-strip name);
  fits = ground arith;
}

pub validated_name_self : (name : String) → IsName name → validated_name name ≡ ok name
unfolding validated_name
validated_name_self name h = rw (h.trimmed, h.fits)

-- Whatever the constructor accepts is valid.
pub new_account-IsValid : (a : Account) {b : Account} → new_account a ≡ ok b → IsValid b
unfolding new_account
new_account-IsValid a h = record {
  name_valid = record { trimmed = ground (arith, strip-strip a.name); fits = ground arith };
  reconcilable = ground arith;
}

-- A valid account is constructed as it is.
pub new_account_self : (a : Account) → IsValid a → new_account a ≡ ok a
unfolding new_account
new_account_self a h = rw (validated_name_self a.name h.name_valid, h.reconcilable)
