-- ===== src/Lib.antt =====
-- Wanderra OS is a platform of services over one database: each package of app/ has its contracts
-- (validated values), models (tables), repository (queries) and service (operations that an
-- execution context may call inside a transaction of its own). This library models the durable
-- execution of app/jobs (definitions of jobs, jobs that workers claim under leases, retries and
-- dead letters, operator controls, schedules that enqueue jobs) and the canonical tasks of
-- app/tasks (their lifecycle, dependencies, evidence, comments, references and reminders). A task's
-- reminder is a job, which the task service asks a scheduler for. It models also what stands under
-- all services: the context that app/execution_context binds to a transaction, the decisions of
-- app/authorization, and the commands, events and consumers of app/messaging, with the audit and
-- outbox rows of app/tenancy that they write.
--
-- Base is what the components share. A Python call that returns or raises is a `Result`; a method
-- that also reads and writes the session is an `Action`, a function from the store to a result and
-- the store, so that what was written before an exception stays visible, as it does in a session
-- until its owner rolls back. `Post` has the rules by which invariants pass through actions,
-- `Table` the queries on lists of rows, `Json` the encoding of `json.dumps` with sorted keys, and
-- `Text` strings as lists of code points.
--
-- Jobs follows the files of app/jobs:
--   app/jobs/contracts.py   Jobs/Contracts (enumerations, values, retry decision) and Jobs/Schedules
--                           (schedules, `due_occurrences`, `next_occurrence`)
--   app/jobs/models.py      Jobs/Models (a record for each table) and Jobs/Session (inserts, under
--                           the primary and unique keys)
--   app/jobs/repository.py  Jobs/Repository (a function for each query)
--   app/jobs/service.py     Jobs/Service, a child for each group of methods: Guards (the private
--                           checks), Enqueue, Lifecycle (what workers call), Operator, Dispatch
-- A method keeps its name, and a piece of a method that is a definition of its own is named in the
-- comment above it. An assignment to a loaded row is a write of the whole row by `save_job` and its
-- siblings. Jobs/Calls makes the public methods one type of calls, each with the context of its
-- caller, and runs them one after the other. Claimable and Lease say what a claimable job and the
-- holder of a lease are without the source's checks, Events what `_record` leaves. The other children
-- of Jobs hold what is proved: Retry, Claims, Liveness, Recurrence, Fencing, Ownership, Idempotence,
-- the parts of Invariant, and Safety.
--
-- Tasks follows the files of app/tasks in the same way: Tasks/Contracts, Tasks/Models,
-- Tasks/Repository, and for app/tasks/service.py Guards (the private checks, and the event and
-- version of a change), Service (`create`, `get`, `list`, `transition`), Details (what is added to a
-- task) and Cycle (`_creates_cycle`). ReminderJobs is the scheduler of app/tasks/jobs.py, a client
-- of `enqueue` of Jobs. Acyclic, Search, Dependencies, Locked and Transitions hold what is
-- proved.
--
-- ExecutionContext (app/execution_context) has the context and its validation, the repositories'
-- check of the workspace, and `apply` and `transaction` around an arbitrary block. Authorization
-- (app/authorization) has the request, the lookups and `authorize`; Effects, Requirements, Recorded
-- and Decisions hold what is proved. Messaging (app/messaging) has Contracts, Models and Repository,
-- and for app/messaging/service.py Audit (`AuditWriterService`), Commands (`CommandService`),
-- Consumer (`EventConsumerService`) and Envelopes (an event as the quarantine stores it). Streams is
-- the abstract view of a consumer; what is proved stands in Frames, Consumption, Refinement,
-- RoundTrip, Idempotence, Keys, Replays, Unstored and Retention. Tenancy/Models has the two tables of
-- app/tenancy/models.py that these write.
-- Base/Numerals reads back what `str` writes of numbers and identifiers.
--
-- Numbers and time: identifiers are natural numbers, printed as a UUID is; an aware datetime is its
-- UTC instant in microseconds since the year 1, and a naive one is a constructor of its own, which
-- the checks refuse. Counts, versions and durations are natural numbers, since no check of the
-- source lets a negative one through.
--
-- Parameters: the context holds the authorizer, the id factory, the clock, SHA-256, `isoformat` and
-- the set of rows that other transactions hold, which `skip_locked` passes over; that of a task has
-- the reminder scheduler, which returns a job's identifier or raises (Tasks/ReminderJobs is the one
-- of the source, over the rows of jobs, with UUID5 as a parameter). A time zone is a pair of
-- conversions. An authorizer is asked and answers: what it writes itself, as the default
-- `H1JobAuthorizer` does to the audit and outbox tables, is not in the store of the jobs. The block
-- of `session.begin()` is run by SQLAlchemy, which is a function with its documented behaviour as a
-- hypothesis. `uuid4` is a sequence of identifiers, and that its next ones are new is a hypothesis
-- where it is needed; that `fromisoformat` reads back what `isoformat` writes is one of the round
-- trip of an event. A consumer's callback is a function on data of any type that gives the new data
-- or raises; what it wrote before it raised is rolled back with its savepoint. `str` of a list or a
-- dictionary is a parameter of the reading of events.
--
-- Loops: those over rows, days and minutes are structural. The search for the next daily occurrence
-- tries 370 days and that for the next valid minute 180 minutes, as in the source, with the same
-- outcome when none is found. The search for a cycle of tasks has two rounds more than there are
-- dependencies: each round takes one task from what is pending, and each dependency is pending once
-- at most. Its limit of 10,000 visited tasks is the source's.
--
-- Not modelled: foreign keys and check constraints are not run by the inserts, but for the foreign
-- key to the workspace of what a decision records; row-level security is not run at all; transactions run one
-- at a time, so the advisory locks have no counterpart; rollback is the caller's; an update that
-- would break a unique key cannot occur, since no assignment changes a key. `casefold` is given on
-- the encoder's output, which is ASCII. Of resources and memberships there is what the task queries
-- read, and of users, sessions, memberships, workspaces and cells what a decision or a placement
-- reads. `int` and `uuid.UUID` read ASCII digits only. The digest chain of audit rows is made and
-- verified by the database. The other packages of app/, the routes of app/api, the migrations and
-- the tests are left out.
pub mod Base
pub mod Jobs
pub mod Tasks
pub mod Tenancy
pub mod Authorization
pub mod ExecutionContext
pub mod Messaging
