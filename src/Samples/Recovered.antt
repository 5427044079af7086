-- ===== src/Samples/Recovered.antt =====
-- The job of a worker that has died (internal/store/store.go).
use worldbisect.Prelude.{ℕ, ◌≡◌, refl, some, arith}
use worldbisect.Prelude.Exec.{ok}
use worldbisect.Prelude.Files.{lookup, insert, names, sort_names, insert_name}
use worldbisect.Model.{Job}
use worldbisect.Store.Disk.{Disk, io, read_job, write_job}
use worldbisect.Store.AuditLog.{
  audit_hash, last_audit, next_event, append_line, read_last, append_audit,
}
use worldbisect.Store.JobFiles.{
  expired_job, requeue_expired_jobs, requeue_from, job_names, claimed_job, claim_next_job,
  claim_from, claim_job,
}
use worldbisect.Store.Claim.{IsClaim}
use worldbisect.Store.Recovery.{abandoned_job_claimed}
use worldbisect.Samples.Workers.{codec, taken_over, disk}

abbrev released : Job
released = expired_job 80 3 taken_over

abbrev requeued : Disk
requeued = (requeue_expired_jobs 80 3 disk).1

abandoned_job_claimed_example :
    (count : ℕ) × ((requeue_expired_jobs 80 3 disk).0 ≡ ok count)
    × (lookup "j1.json" requeued.jobs ≡ some (expired_job 80 3 taken_over))
    × (found : Job) × (some (claimed_job "w3" 60 90 released) ≡ some found)
    × IsClaim 90 3 60 "w3" requeued.jobs (claim_next_job codec 90 "w3" 60 3 requeued).1 found
unfolding requeue_expired_jobs requeue_from job_names read_job write_job io lookup insert names
    sort_names insert_name claim_next_job claim_from claim_job append_audit read_last append_line
    next_event audit_hash last_audit
abandoned_job_claimed_example =
    abandoned_job_claimed codec 80 90 3 60 "w3" "j1.json" taken_over disk
      (some (claimed_job "w3" 60 90 released)) refl refl refl (omega arith) refl
