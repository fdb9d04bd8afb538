-- ===== src/Identity/Credentials/Rules.antt =====
-- The sources of values of the identity component leave the database as it is.
use personal_finance_public.Base.{String}
use personal_finance_public.Storage.Schema.{Db}
use personal_finance_public.Storage.World.Rules.{Preorder, Keeps, keeps_rules}
use personal_finance_public.Identity.Credentials.{IdentityEnv, new_id, token_urlsafe, salted, hash}

module _ {R : Db → Db → Type 0} (pre : Preorder R) where
  pub Keeps-new_id : (e : IdentityEnv) → Keeps R (new_id e)
  Keeps-new_id e = record { at = λ w. pre.reflexive w.db }

  pub Keeps-token_urlsafe : (e : IdentityEnv) → Keeps R (token_urlsafe e)
  Keeps-token_urlsafe e = record { at = λ w. pre.reflexive w.db }

  Keeps-salted : (e : IdentityEnv) (password : String) → Keeps R (salted e password)
  Keeps-salted e password = record { at = λ w. pre.reflexive w.db }

  pub Keeps-hash : (e : IdentityEnv) (password : String) → Keeps R (hash e password)
  unfolding hash
  Keeps-hash e password = search (keeps_rules, pre, Keeps-salted)

pub ruleset credential_rules = (keeps_rules, Keeps-new_id, Keeps-token_urlsafe, Keeps-hash)
