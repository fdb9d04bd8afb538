-- ===== src/System.antt =====
-- The services as backend/app/main.py composes them: one database, one environment, and the durable
-- audit behind every port.
pub mod Soundness
use personal_finance_public.Base.{⊤, String, ℕ, Option, List, [], ◌∷◌}
use personal_finance_public.Domain.Transaction.{Date}
use personal_finance_public.Storage.Exec.{Exec}
use personal_finance_public.Storage.World.{World}
use personal_finance_public.Audit.Bindings.Sinks.{
  ledger_sink, reconciliation_writer, authentication_sink,
}
use personal_finance_public.Ledger.Calls
use personal_finance_public.Ledger.Calls.{Call, effect_of}
use personal_finance_public.Reconciliation.Service as ReconciliationService
use personal_finance_public.Reconciliation.Service.{ReconciliationRequest}
use personal_finance_public.Identity.Credentials.{IdentityEnv}
use personal_finance_public.Identity.Sessions
use personal_finance_public.Identity.Service as IdentityService

-- The operations of the services that change the database, and the checks of a session.
pub data Request : Type 0 where
  ledger : Call → Request
  complete_reconciliation : ReconciliationRequest → String → Request
  bootstrap login : String → String → String → Request
  logout : String → String → String → String → Request
  reset_credentials : String → String → Request
  authenticate : String → Option ℕ → Request
  validate_csrf : String → String → Request
  csrf_for_session : String → Request

module _ (e : IdentityEnv) where
  unfoldable pub serve : Request → Exec World ⊤
  serve (ledger call) = Calls.run e.env (ledger_sink e.env) call
  serve (complete_reconciliation q c) =
      effect_of (ReconciliationService.complete e.env (reconciliation_writer e.env) q c)
  serve (bootstrap username password name) =
      effect_of (IdentityService.bootstrap e username password name)
  serve (login username password c) =
      effect_of (IdentityService.login e (authentication_sink e.env) username password c)
  serve (logout token user_id space_id c) =
      IdentityService.logout e (authentication_sink e.env) token user_id space_id c
  serve (reset_credentials password c) =
      IdentityService.reset_credentials e (authentication_sink e.env) password c
  serve (authenticate token at) = effect_of (Sessions.authenticate e token at)
  serve (validate_csrf token csrf) = effect_of (Sessions.validate_csrf e token csrf)
  serve (csrf_for_session token) = effect_of (Sessions.csrf_for_session e token)

  -- Requests one after another; one that fails does not stop the next.
  unfoldable pub serve_all : List Request → World → World
  serve_all [] w = w
  serve_all (r ∷ requests) w = serve_all requests (serve r w).1
