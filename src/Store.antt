-- ===== src/Store.antt =====
-- internal/store: the persistent store of jobs, idempotency records, the audit chain and the cache
-- of experiments. A directory is a list of typed files. A job file or an idempotency record always
-- decodes; what an entry of the cache or an entity decodes to is up to its encoding. The audit log is
-- a list of lines, and a line may be malformed, too long for the scanner, or torn.
-- Each call of the operating system may fail: `faults` says of the next calls which ones do. A write
-- of a file is atomic (temporary file and rename), and so one call; a line of the audit log is written
-- in place, and `tears` says what its failing write leaves. The mutex makes each operation one step.
pub mod Disk
pub mod AuditLog
pub mod JobFiles
pub mod CacheFiles
pub mod Schema
pub mod Entities
pub mod CacheHits
pub mod CacheBounds
pub mod CacheSaves
pub mod Lifecycle
pub mod Steps
pub mod Enqueue
pub mod History
pub mod Claim
pub mod Calm
pub mod Requeue
pub mod Recovery
pub mod Chain
pub mod Agreement
pub mod Retry
