-- ===== src/Lib.antt =====
-- A model of the core of portable-runtime (src/portable_runtime), a runtime in which responsibilities
-- are held, work is proposed and capabilities are invoked under authorization, leases and limits.
--
-- The parts, and the files that model them; paths are those under src/portable_runtime:
--   Base            Python's lists, dicts, texts and exceptions, as far as they are used.
--   Authorization   records/authorization.py. Models holds the records, Match the tests of capability,
--                   resource and effect, Check `is_authorized_for`, `validate_grant` and the uses.
--   Lease           the leases of stores/memory.py (`acquire_lease`, `renew_lease`, `release_lease`) on
--                   a table of leases and the lease fields of the runs; Fencing is
--                   core/boundary_fencing.py, which tests a request against the run.
--   Reliability     core/reliability.py. Circuit is `CircuitBreaker`, Policy the evaluator and the local
--                   policy, Controls the gate `ReliabilityControls`.
--   Journal         the events of stores/memory.py and the calls that may raise: a call takes the store
--                   and gives a value or an error, with the store after it. What was written before
--                   an error stays written, unless a `transaction` undoes it. Logic has the rules
--                   for what holds before and after a call.
--   Responsibility  responsibility/models.py (Models) and responsibility/service.py with
--                   responsibility/persistence.py (Kernel): objects are events of the journal; History
--                   folds the current definition and status, Operations and Resources are the
--                   operations.
--   Controller      controller/: Models are the records and their validators, Recording reads and writes
--                   them in the journal, Guards is `_require_current`, Operations and Apply the rest
--                   of service.py. Machine is the abstract state machine of a controller, Current
--                   says which state is current in a journal.
--   Records         records/. Lifecycle is lifecycle.py with the validator of a record's status in models.py,
--                   Progress what follows of it; Reopen is reopen.py, with the search over the relations
--                   (Search) and the package that it fills (Package, Gather); Revision is revision.py;
--                   Revalidation is revalidation.py, with its data (Models) and functions (Detect).
--   Routing         core/independence.py (Models) and core/router.py (Router): which provider a request gets.
--   Policies        core/policies.py: Models are obligations and decisions with their validator, Engine is
--                   PolicyEngine.evaluate.
--
-- How they meet: the controller writes its states and decisions to the journal, asks the kernel for the
-- current definition of a responsibility and hands it a proposal, and asks the runtime behind it to
-- invoke a capability. The boundary of the runtime asks fencing, authorization and the reliability gate
-- before a provider is invoked; that composition is not modelled.
--
-- Conventions. A `datetime`, a reading of `time.monotonic()` and a duration are naturals in one unit;
-- an operation takes the instants that it reads as arguments, or draws them from an `Env`, as it
-- draws new identifiers. A dict is a function or the list of its entries in the order of the keys. An
-- error is a constructor instead of a text. A validator of a record is a test, a record of the model
-- may fail it. `str.lower` is a parameter, `CaseMapping`, of which only its effect on ASCII texts
-- without capitals is used. The numbers of a reliability request are naturals, the recovery times
-- whole or negative numbers, infinity or NaN. The generation in a request is a number, so that the fallback to the metadata in
-- `extract_lease_generation` is not reached. Event types that only other components may append, and
-- fields that no modelled operation reads (metadata, messages), are left out. All functions are
-- structural recursions, but for the search of a reopening, whose fuel is bounded by the ends of the
-- relations.
--
-- Not modelled: the adapters for legacy dictionaries, the SQL and file stores, governance, workflows,
-- recovery, other records, the boundary itself, providers, plugins, the API and
-- deployment.
pub mod Base
pub mod Authorization
pub mod Lease
pub mod Reliability
pub mod Responsibility
pub mod Controller
pub mod Journal
pub mod Records
pub mod Routing
pub mod Policies
