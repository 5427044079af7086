-- ===== src/Jobs.antt =====
-- internal/jobs/manager.go: what a worker does with a job and how a job is made. The handlers are a
-- parameter that runs between two operations of the store, while other workers may act on it.
pub mod Report
use worldbisect.Prelude.{
  ℕ, String, Bool, true, false, Option, none, some, List, [], ◌∷◌, str_eq, if◌then◌else◌,
}
use worldbisect.Prelude.Exec.{Result, ok, err, Exec, pure, fail, attempt, ◌>>=◌, ◌>>◌}
use worldbisect.Prelude.Files.{Files, lookup}
use worldbisect.Model.{Job, queued, JobState, succeeded, failed}
use worldbisect.Store.Disk.{Disk, Io, key_required}
use worldbisect.Store.AuditLog.{AuditCodec}
use worldbisect.Store.JobFiles.{
  CreateJobRequest, complete_job, create_job_idempotent, current_schema_version,
}

-- The job of `Enqueue`, with the fresh identifier.
abbrev pub new_job : String → ℕ → String → String → String → Job
new_job identifier now kind payload principal = record {
  schema_version = current_schema_version;
  id = identifier;
  type = kind;
  state = queued;
  payload = payload;
  principal = principal;
  created_at = now;
  updated_at = now;
  lease_owner = "";
  lease_expires = 0;
  heartbeat_at = 0;
  attempts = 0;
  result_ref = "";
  error = "";
}

-- `Enqueue`; `Notify` only wakes a worker.
unfoldable pub enqueue :
    AuditCodec
    → (String → String)
    → String
    → ℕ
    → ℕ
    → ℕ
    → String
    → String
    → String
    → String
    → String
    → String
    → Io (Job × Bool)
unfolding create_job_idempotent
enqueue codec hash identifier made now later kind payload principal fingerprint key request_digest =
    if str_eq key ""
    then fail key_required
    else create_job_idempotent codec now hash
        (record {
          job = new_job identifier made kind payload principal;
          principal_fingerprint = fingerprint;
          route = kind;
          idempotency_key = key;
          request_digest = request_digest;
        })
        later

-- A handler returns a reference to its result, or an error. It and whatever else happens on the
-- store meanwhile is a change of the disk.
abbrev pub Handler : Type 0
Handler = Job → Disk → Result String String × Disk

-- How `execute` reports an outcome; the error of `CompleteJob` is dropped.
unfoldable pub report : AuditCodec → ℕ → String → Job → Result String String → Disk → Disk
unfolding complete_job
report codec now worker job (ok result) d =
    (complete_job codec now job.id worker succeeded result "" d).1
report codec now worker job (err e) d = (complete_job codec now job.id worker failed "" e d).1

abbrev pub run_handler : AuditCodec → ℕ → String → Job → Option Handler → Disk → Disk
run_handler codec now worker job none d =
    report codec now worker job (err "no handler registered") d
run_handler codec now worker job (some handler) d =
    let (outcome, d1) = handler job d in report codec now worker job outcome d1

unfoldable pub execute : AuditCodec → Files Handler → ℕ → String → Job → Disk → Disk
unfolding report lookup
execute codec handlers now worker job d =
    run_handler codec now worker job (lookup job.type handlers) d
