-- ===== src/System/Soundness.antt =====
-- The whole composition under the relation `Grows`.
use personal_finance_public.Base.{String, List, [], ◌∷◌, ◌≡◌, true, some}
use personal_finance_public.Storage.Table.{lookup}
use personal_finance_public.Storage.Schema.{is_history, TransactionRecord, transaction_keyed}
use personal_finance_public.Storage.Schema.Soundness.{Grows, IsSound, Kept}
use personal_finance_public.Storage.Schema.Others.{Grows-preorder}
use personal_finance_public.Storage.World.{World}
use personal_finance_public.Storage.World.Rules.{Keeps}
use personal_finance_public.Audit.Bindings.Sinks.{
  ledger_sink, reconciliation_writer, authentication_sink,
}
use personal_finance_public.Ledger.Calls.Soundness.{effect_of-Grows, run-Grows}
use personal_finance_public.Reconciliation.Service.Growth.{complete-Grows}
use personal_finance_public.Identity.Credentials.{IdentityEnv}
use personal_finance_public.Identity.Service.Ledger
use personal_finance_public.System.{
  Request, ledger, complete_reconciliation, bootstrap, login, logout, reset_credentials,
  authenticate, validate_csrf, csrf_for_session, serve, serve_all,
}

module _ (e : IdentityEnv) where
  serve-Grows : (r : Request) → Keeps Grows (serve e r)
  unfolding serve
  serve-Grows (ledger call) = run-Grows e.env (ledger_sink e.env) call
  serve-Grows (complete_reconciliation q c) =
      effect_of-Grows _ (complete-Grows e.env (reconciliation_writer e.env) q c)
  serve-Grows (bootstrap username password name) =
      effect_of-Grows _ (Ledger.bootstrap-Grows e username password name)
  serve-Grows (login username password c) =
      effect_of-Grows _ (Ledger.login-Grows e (authentication_sink e.env) username password c)
  serve-Grows (logout token user_id space_id c) =
      Ledger.logout-Grows e (authentication_sink e.env) token user_id space_id c
  serve-Grows (reset_credentials password c) =
      Ledger.reset_credentials-Grows e (authentication_sink e.env) password c
  serve-Grows (authenticate token at) = effect_of-Grows _ (Ledger.authenticate-Grows e token at)
  serve-Grows (validate_csrf token csrf) =
      effect_of-Grows _ (Ledger.validate_csrf-Grows e token csrf)
  serve-Grows (csrf_for_session token) = effect_of-Grows _ (Ledger.csrf_for_session-Grows e token)

  serve_all-Grows : (requests : List Request) (w : World) → Grows w.db (serve_all e requests w).db
  unfolding serve_all
  serve_all-Grows [] w = Grows-preorder.reflexive w.db
  serve_all-Grows (r ∷ requests) w =
      Grows-preorder.transitive w.db _ _ ((serve-Grows r).at w) (serve_all-Grows requests _)

  -- With the services composed as they run, in any sequence of requests, whichever of them fail, every
  -- transaction that is history still balances if each did before.
  pub serve_all-IsSound :
      (requests : List Request) (w : World) → IsSound w.db → IsSound (serve_all e requests w).db
  serve_all-IsSound requests w sound = (serve_all-Grows requests w).sound sound

  -- A transaction that is history is still there after any sequence of requests, with its snapshot
  -- and a state that only moved on.
  pub serve_all-Kept :
      (requests : List Request) (w : World) (id : String) (t : TransactionRecord)
      → lookup id w.db.transactions ≡ some t
      → is_history t.state ≡ true
      → Kept t (lookup id (serve_all e requests w).db.transactions)
  serve_all-Kept requests w = (serve_all-Grows requests w).preserves.kept
