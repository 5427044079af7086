-- ===== src/Lib.antt =====
-- worldbisect compares a passing and a failing capture of a command, and finds by experiments a
-- smallest set of differences that explains the failure. This library models its core in Go.
--
-- Ddmin: internal/experiment/ddmin.go. `DDMin`, `split` and `subtract`, for any test function. The
--   test carries a state, in the program the records of the analysis. A division by zero or a slice
--   out of range in `split` is the result `panicked`. The outer loop runs on fuel, the budget and one: each round but the
--   last makes an experiment and there are at most `budget` of them.
-- Model: internal/model/model.go and helpers.go, without the fields that no modelled code reads.
--   Times count from the zero time, and an error is its text.
-- Compare: internal/experiment/compare.go. `Compare` over the environments and the workspaces; the
--   hash functions are parameters. Maps are lists of keys with values; the loops run over their
--   sorted keys as in the code.
-- Engine: internal/experiment/engine.go. `Analyze` in its stages (Engine/Analyze, Engine/Stages),
--   `verifyBaseline`, `runIntervention` and `verifyMinimality` (Engine/Trials) and `runWorld`
--   (Engine/World). The context, the identifiers, the cache, the workspace, the runner, the oracle
--   and the store are the record `Lab` (Engine/Lab) over any state. `Analyze` calls Compare and Ddmin;
--   its interventions on the bad world are Ddmin's test function.
-- Store: internal/store/store.go and audit.go. The disk is a record of typed directories
--   (Store/Disk); each call of the system may fail, as the list `faults` says. Store/JobFiles has the
--   operations on jobs (`CreateJobIdempotent`, `ClaimNextJob`, `HeartbeatJob`, `CompleteJob`,
--   `RequeueExpiredJobs`), Store/AuditLog has `appendAuditLocked` and `VerifyAudit`,
--   Store/CacheFiles has internal/store/experiment_cache.go (its pruning in Store/CacheBounds),
--   Store/Schema has `initialize`, and Store/Entities has `saveEntity`, `loadEntity` and
--   `listEntities`. The mutex makes each operation one step. `filepath.Glob` gives no files where
--   its call fails. SHA-256 and encoding/json are parameters: what an entry of the cache or an entity
--   is encoded as and decodes to, and what a line of the audit log is read as, which may also be
--   malformed, too long or torn by a failing write. A job file or an idempotency record always decodes.
-- Jobs: internal/jobs/manager.go, `Enqueue` and `execute` on the job store.
-- Oracle: internal/oracle/oracle.go, `Evaluate` over a `Host` that has the regular expressions, the
--   paths and the files.
-- Hub: internal/hub, the team report service. Hub/Access has internal/hub/access.go with the types of
--   internal/hub/config.go: the validation of the access rules (`validateAccessConfig`) and the
--   principal of a credential (`principalForKey`). Hub/Submission has `Submission.Validate` and
--   `PublisherIdentity.validate`. Hub/Reports has the reports of one workspace (internal/hub/store.go:
--   `load`, `List`, `Get`, `Delete`, `CreateVerified`, `atomicWrite`); Hub/Reports/Requests has the
--   abstract view, the shelf of reports at a time, and what each request means for it. Hub/Service has
--   the data directory with its workspaces (`workspaceDir`, `PurgeExpired`). Hub/Trail has
--   internal/hub/audit.go, the audit log of the hub: a chain of entries in segment files with a
--   committed checkpoint, with lines torn by a failing write.
-- Samples: runs on concrete inputs.
--
-- Not modelled: HTTP, OIDC, processes and ptrace, walks of the file system, archives, signatures and
-- the local reports, since they are mostly input and output; and so far blobs and traces of the
-- store, the goroutines of internal/jobs, `Parse` of the oracle, and of internal/hub
-- `Config.Validate` and the HTTP server.
pub mod Prelude
pub mod Ddmin
pub mod Model
pub mod Store
pub mod Compare
pub mod Engine
pub mod Jobs
pub mod Oracle
pub mod Hub
mod Samples
