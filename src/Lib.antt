-- ===== src/Lib.antt =====
-- Uptime Platform: models of the backend's core and the theorems about them.
--
-- The program is a service that checks monitors, keeps incidents, notifies and shows status pages,
-- under src/uptime_platform of the repository. A scheduler claims due monitors under a lease, a probe
-- gives a check result, `CheckService.record` stores it and moves the monitor's status machine; a
-- transition opens or resolves an incident and writes an outbox event. The notification worker fans an
-- event out into one delivery for each destination, claims deliveries under a lease and retries. The
-- organizations, auth, maintenance and status_pages packages guard who may see and change what.
--
-- The files, each for the package of its name:
--   Base          Python's lists, dicts, sorting, instants and exceptions, with their lemmas
--   Monitors      monitors/entities.py, state.py (State: apply_check_result), in_memory_repository.py
--                 (Repository: claim_due, release_check_lease, get_by_id_for_update), service.py,
--                 models.py (Models: MonitorModel, _to_entity), sqlalchemy_repository.py (Sql)
--   Checks        checks/entities.py, in_memory_repository.py, service.py (Service: record_check is
--                 `record`, handle_incident_transition is `_handle_incident_transition`)
--   Incidents, Outbox, Maintenance
--                 the entities, the in-memory repositories and the services
--   Notifications notifications/entities.py, in_memory_repository.py (Destinations, Deliveries),
--                 service.py (Service: process, retry_delay, fan_out), content.py (Content),
--                 sqlalchemy_repository.py (Sql: the deliveries' repository),
--                 destination_service.py and schemas.py (DestinationService), factory.py (Factory),
--                 the check of a URL in slack.py (Slack),
--                 worker.py (Worker: run_once, its waves, _process_delivery)
--   Users, Organizations
--                 the entities, the in-memory repositories, member_service.py (Members), service.py
--   Auth          the refresh sessions of auth/ (Refresh: issue, refresh, revoke), and the context of
--                 a request in auth/dependencies.py (Access: get_organization_context)
--                 service.py (Registration: register, login)
--   Retention     retention/repository.py (cleanup, delete_batch) and service.py
--   ApiKeys       api_keys/in_memory_repository.py and service.py
--   Scheduler     scheduler/scheduler.py (run_once, its waves, _check_monitor, _release_claims)
--   StatusPages   status_pages/in_memory_repository.py, service.py (Service)
--   Examples      the theorems at concrete inputs
--
-- A repository is a value: a dict is an association list in the order of insertion, and a method takes
-- the repository and returns the one it leaves. A service's store is a record of the repositories it
-- holds. The reading of a clock, an identifier of `uuid4` and a new token are arguments. A UUID is a
-- number, an instant or a duration is a number of microseconds. An exception is a value: `Result`
-- where nothing is written before it, `Exec` where the repositories are handed back with it. The
-- `while` of `run_once` runs on fuel, one wave for each place of the batch and one more: a wave that
-- claims nothing ends the loop, and any other fills a place; the scheduler and the worker share that
-- loop (Base.Waves). Every other loop is a recursion on a list. SQLAlchemy's session is a parameter
-- with laws (Base.Session); a statement with an order and a limit gives the first rows (Base.Selection).
--
-- Not modelled: the SQLAlchemy repositories but those of monitors and deliveries, and row locks; the
-- network probes and channels; metrics, settings and the HTTP routes; the polling loops; statistics.
-- Validation by pydantic, hashing, token signing, and the text filters on regular expressions and URLs,
-- but for the check of a Slack URL,
-- are parameters.
pub mod Base
pub mod Monitors
pub mod Checks
pub mod Incidents
pub mod Outbox
pub mod Maintenance
pub mod Notifications
pub mod Users
pub mod Organizations
pub mod Auth
pub mod ApiKeys
pub mod StatusPages
pub mod Retention
pub mod Scheduler
pub mod Examples
