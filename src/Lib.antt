-- ===== src/Lib.antt =====
-- A model of the back end of personalFinance-public: a double-entry ledger for household money, its
-- services, the database under them, the reconciliation of accounts, the operator's identity and
-- sessions, and the durable audit.
--
-- The program. A service of backend/app/ledger/application opens a unit of work, reads and writes
-- through the repository of backend/app/ledger/adapters, builds its postings with the domain of
-- backend/app/ledger/domain, reserves and completes an idempotency key, reports its outcome to an
-- audit sink and commits. SQLite holds the tables, with constraints and triggers.
--
-- The files.
--   Base: shared names, Boolean tests, lists, the integers, texts, and `Result` for exceptions.
--   Domain: ledger/domain, one module for each of its modules: Money, Description, Account, Entry,
--     Transaction and Recipes (posting_recipes.py). A method keeps its name; a class's constructor
--     with its `__post_init__` is `new` or `new_` and the class.
--   Storage: shared/models_ledger.py, models_control.py and models_identity.py (Schema), the
--     statements that the adapters flush with their constraints (Schema/Statements), the triggers
--     of backend/alembic/versions (Schema/Triggers), shared/canonical_json.py (CanonicalJson) and
--     shared/unit_of_work.py (World).
--   Ledger: application/commands.py, adapters/repositories.py (Repository), application/handlers.py
--     (Handlers), reversal.py, catalog.py, state_projection.py (Projection), ports/audit.py (Audit)
--     and shared/idempotency.py (Idempotency). Calls is every service that writes, as one type.
--   Reconciliation: backend/app/reconciliation: domain/reconciliation.py in the module itself,
--     adapters/repository.py (Repository) and application/service.py (Service).
--   Audit: backend/app/audit: domain/event.py (Event), adapters/redaction.py (Redaction),
--     adapters/repository.py (Record and Repository), application/service.py (Service) and
--     adapters/bindings.py (Bindings), which fill the ports of the other components (Bindings/Sinks).
--   Identity: backend/app/identity: domain/user.py in the module itself, adapters/passwords.py
--     (Credentials), adapters/sessions.py (Repository and Sessions) and application/service.py
--     (Service).
--   System: the services as backend/app/main.py composes them, and requests to them as one type.
--   Tests: concrete runs.
--
-- State. A `Db` has one list of rows for each table, newest first. A `World` is the database as the
-- session sees it and a counter of calls to the outside, whose random identifiers, clocks, date
-- format, SHA-256 and `json` are the record `Env`; the n-th call gets the n-th value, whatever it is.
-- Metadata of an audit event is stored as the text that `json.dumps` writes; the stored result of an
-- idempotency key is the JSON value itself. A method is a function from a world to its result or error and the world after it; what it wrote
-- before it raised stays until the unit of work takes it back. `_entry_id()` and `uuid4()` are drawn
-- before a recipe is built, also when the recipe is then refused.
--
-- Cents are integers, as in Python; dates are their ordinals. Nothing runs on fuel but the digits of
-- a number in CanonicalJson, whose fuel is the number's successor, which is more than its digits.
--
-- The hash, the check and the salts of Argon2, the tokens, the HMAC of a session token and the
-- lifetime of a session are the record `IdentityEnv`. The ports for outcomes are records whose one
-- law is that nothing but audit events is written, and the audit's bindings satisfy it.
--
-- Not modelled: HTTP routes, configuration and the command line; reporting and recovery; ledger
-- queries and `list_transactions`, which order by server timestamps; concurrent sessions: each unit
-- of work runs alone; the front end and the deployment scripts; .ai-engineering, a tool framework
-- that the application does not import.
pub mod Base
pub mod Domain
pub mod Storage
pub mod Ledger
pub mod Reconciliation
pub mod Audit
pub mod Identity
pub mod System
pub mod Tests
