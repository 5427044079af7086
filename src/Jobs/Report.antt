-- ===== src/Jobs/Report.antt =====
-- A worker of internal/jobs/manager.go cannot report on a job that it no longer owns.
use worldbisect.Prelude.{ℕ, String, ◌≡◌, true, some, ◌||◌, not, str_eq, arith}
use worldbisect.Prelude.Exec.{Result, ok, err, after-bind}
use worldbisect.Prelude.Files.{lookup}
use worldbisect.Model.{Job, JobState, succeeded, failed}
use worldbisect.Store.Disk.{Disk, io, read_job}
use worldbisect.Store.AuditLog.{AuditCodec}
use worldbisect.Store.JobFiles.{job_file, is_running, complete_job}
use worldbisect.Jobs.{report}

-- The job's file does not hold it as running for this worker.
abbrev pub NotOwned : String → Disk → String → Type 0
NotOwned id d worker =
    (job : Job)
    → lookup (job_file id) d.jobs ≡ some job
    → (not (is_running job.state) || not (str_eq job.lease_owner worker)) ≡ true

read_job-same :
    (name : String) (d : Disk)
    → ((read_job name d).1.jobs ≡ d.jobs) × ((read_job name d).1.audit ≡ d.audit)
unfolding read_job io
read_job-same name d = (ground arith, ground arith)

read_job-found :
    (name : String) (d : Disk) (job : Job)
    → (read_job name d).0 ≡ ok job
    → lookup name d.jobs ≡ some job
unfolding read_job io
read_job-found name d job h = ground arith

complete_job-refused :
    (codec : AuditCodec) (now : ℕ) (id worker : String) (state : JobState) (r e : String) (d : Disk)
    → NotOwned id d worker
    → let d' = (complete_job codec now id worker state r e d).1 in
      (d'.jobs ≡ d.jobs) × (d'.audit ≡ d.audit)
unfolding complete_job
complete_job-refused codec now id worker state r e d lost =
    after-bind (λ t. (t.jobs ≡ d.jobs) × (t.audit ≡ d.audit)) (read_job (job_file id)) _ d
      (read_job-same (job_file id) d)
      (λ job found.
        rw (lost job (read_job-found (job_file id) d job found)) (read_job-same (job_file id) d))

-- When the file of the job is gone, not running or leased to another worker, as after the lease has
-- expired and the job was requeued, the report of a handler's outcome changes neither a job file nor
-- the audit log.
pub report-NotOwned :
    (codec : AuditCodec) (now : ℕ) (worker : String) (job : Job) (outcome : Result String String)
    (d : Disk)
    → NotOwned job.id d worker
    → ((report codec now worker job outcome d).jobs ≡ d.jobs)
      × ((report codec now worker job outcome d).audit ≡ d.audit)
unfolding report
report-NotOwned codec now worker job (ok result) d lost =
    complete_job-refused codec now job.id worker succeeded result "" d lost
report-NotOwned codec now worker job (err e) d lost =
    complete_job-refused codec now job.id worker failed "" e d lost
