-- ===== src/Lib.antt =====
-- Remote Agent Devbox: the control plane's database operations, and what they guarantee.
--
-- The program lets users run coding agents in sandboxed workspaces. Its control plane
-- (apps/control) keeps everything in one PostgreSQL database, behind repositories
-- (packages/*/src/repository.ts). An agent's change becomes a review; a user approves it; one git
-- operation pushes it with a short credential lease. Users open a workspace in an IDE with a code
-- that is exchanged once for a session. An instance has a deployment tier, a posture hash and a
-- security epoch; a security migration changes them and withdraws all that was granted before.
--
-- Files:
-- - Common and its children: equality tests, tables as lists of rows, errors, the monad `Exec` of
--   calls that may throw, and the rules (`Ensures`) for what a call does on each branch.
-- - Names: the texts that the schemas accept.
-- - Schema and its children: the rows of the tables (packages/*/src/*.ts), and Database.
-- - GitOperations, Leases: packages/git-operations/src/operation.ts and repository.ts.
-- - Approvals: packages/approvals/src/repository.ts.
-- - IdeAccess: packages/ide-access/src/repository.ts.
-- - Workspaces, Metadata: packages/workspace-state/src/repository.ts and security-posture.ts, and
--   apps/control/src/security/maintenance-guard.ts.
-- - Outbox: packages/outbox/src/repository.ts, and Outbox/Dispatcher: packages/outbox/src/dispatcher.ts.
-- - Lifecycle: the reconciler of packages/workspace-state/src/lifecycle.ts, for any sandbox supervisor.
-- - Coordinator: apps/control/src/workspace/outbox-coordinator.ts.
-- - Crf and its children: packages/git-artifacts/src/crf.ts, canonical JSON over UTF-16 code units (Crf),
--   the documents that are digested (Crf/Documents), and the order of files (Crf/Files).
-- - Artifacts, Artifacts/Reviews: packages/git-artifacts/src/repository.ts.
-- - Validation: apps/control/src/validation/review-service.ts and exact-revalidator.ts.
-- - GitWrite: apps/control/src/git/git-write-executor.ts. The variables that its `try` statement assigns
--   are fields of the state `Execution`, which its handlers read.
-- - GitStart: apps/control/src/git/git-operation-service.ts, over the modules above.
-- - Validator/RawDiff: apps/validator/src/raw-diff.ts.
-- - Audit: packages/audit-events/src/event.ts and repository.ts.
-- - Tasks: packages/agents/src/task-repository.ts.
-- - ApprovalRequests: apps/control/src/approvals/approval-service.ts.
-- - SecurityMigration: the commit of apps/control/src/security/security-migration.ts, and
--   SecurityMigration/Service: its service.
-- - System and its children: every writing call of these repositories as an `Action`; `run` performs
--   a list of them. Change lists the writes that an action can commit; the other children follow one
--   table each through any list of actions.
-- - Tests and its children: runs on concrete data.
-- Each of these files names an operation as the source does, in lower case with underscores.
--
-- A table is a list of rows, newest first. UPDATE … WHERE is `update`, its RETURNING is `returning`,
-- and a lookup is `find_row`. A call is a function from the database to a result and a database; a
-- transaction that throws gives back the database that it began with. The constraints of a table
-- that a new row can break (primary keys, unique indexes, foreign keys, checks) are tested by
-- `…_accepts`, and those that the migration's update of approval requests breaks by `is_refused`;
-- the other updates keep the checks of the rows that they write. A call is one statement or one
-- transaction, and PostgreSQL runs these one after the other as far as their row locks order them; the
-- model takes them as atomic. `resolveSession` reads three rows in three statements, which the model
-- takes at one moment. Dates are milliseconds, and identifiers, digests and dates that the source
-- draws are arguments. Numbers are natural numbers without an upper bound, but for the epoch, whose
-- bound the commit tests. The dispatcher's loop recurses on the rounds that its limit leaves.
-- `decimal` recurses on one round more than its number, which is at least its number of digits. No
-- other recursion needs a bound.
--
-- What the platform and its libraries compute (SHA-256, base64, the UUID test) is a record of functions,
-- `Platform`. An interface to the outside (the validator, the token issuer, the push, the client of
-- pull requests, the sandbox supervisor) is a parameter whose calls are actions on the database, since
-- other requests may be answered while they run; what they do is not restricted. Nothing else runs
-- between two steps of a service. What a schema rejects is one error, whatever it rejects it for.
--
-- Workspaces are reconciled one after the other (`reconcile_all`), where the source starts all of them
-- at once.
--
-- Not modelled: the other services over the repositories, which call what is here; the coordinator of
-- lifecycle.ts, which only tests build; the git and GitHub clients, the web application, the Discord
-- bot, the IDE proxy, the agent worker, the validator's program around its parser, and the docker
-- supervisor, which are input and output.
pub mod Common
pub mod Names
pub mod Schema
pub mod GitOperations
pub mod Leases
pub mod Approvals
pub mod IdeAccess
pub mod Workspaces
pub mod Metadata
pub mod Outbox
pub mod Lifecycle
pub mod Audit
pub mod Tasks
pub mod SecurityMigration
pub mod System
pub mod Tests
pub mod Validator
pub mod Crf
pub mod Artifacts
pub mod GitWrite
pub mod Validation
pub mod GitStart
pub mod ApprovalRequests
pub mod Coordinator
