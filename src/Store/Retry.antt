-- ===== src/Store/Retry.antt =====
-- Retrying `CreateJobIdempotent` of internal/store/store.go.
use worldbisect.Prelude.{
  ℕ, String, ◌≡◌, refl, ap, ◌∙◌, Bool, true, false, Option, none, some, [], ◌∷◌, ◌||◌, not, arith,
  str_eq, eq_iff, Bool-cases, if◌then◌else◌, inl, inr,
}
use worldbisect.Prelude.Exec.{
  ok, err, attempt, Ensures, Ensures-bind, Ensures-if, Ensures-pure, Ensures-fail, Ensures-attempt,
  Moves, Moves-bind,
}
use worldbisect.Prelude.Files.{lookup, insert, lookup-insert_self}
use worldbisect.Model.{Job, IdempotencyRecord, Detail}
use worldbisect.Store.Disk.{
  Disk, idempotency_conflict, key_required, io, read_job, write_job, remove_job, write_idempotency,
}
use worldbisect.Store.AuditLog.{AuditCodec, append_audit}
use worldbisect.Store.JobFiles.{
  CreateJobRequest, job_file, current_schema_version, create_job, replay_job, find_record,
  replay_or_create, create_job_idempotent, idempotency_file,
}
use worldbisect.Store.Lifecycle.{
  SameFiles, SameFiles-preorder, io-SameFiles, append_audit-SameFiles, read_job-ok,
}
use worldbisect.Store.Calm.{io_calm, read_job_calm}
use worldbisect.Store.Enqueue.{write_job-stored, write_idempotency-SameJobs}

-- The request is on record: its idempotency file names its digest and a job whose file is there.
pub record IsRecorded (hash : String → String) (r : CreateJobRequest) (d : Disk) (job : Job)
    : Type 0 where
  pub existing : IdempotencyRecord
  pub on_file : lookup (idempotency_file hash r) d.idempotency ≡ some existing
  pub same_request : existing.request_digest ≡ r.request_digest
  pub job_there : lookup (job_file existing.job_id) d.jobs ≡ some job

write_idempotency-stored :
    (name : String) (r : IdempotencyRecord) (d : Disk) {u : Unit {0}}
    → (write_idempotency name r d).0 ≡ ok u
    → (write_idempotency name r d).1.idempotency ≡ insert name r d.idempotency
unfolding write_idempotency io
write_idempotency-stored name r d h = ground arith

module _ (codec : AuditCodec) (now : ℕ) (hash : String → String) where
  create_job-IsRecorded :
      (r : CreateJobRequest) (later : ℕ) (d : Disk)
      → Ensures (create_job codec now hash r later) d (λ p d'. IsRecorded hash r d' p.0)
  unfolding create_job
  create_job-IsRecorded r later d =
      let job : Job = record r.job {
        schema_version = current_schema_version;
        created_at = now;
        updated_at = now;
      } in
      let Q : Job × Bool → Disk → Type 0 = λ p d'. IsRecorded hash r d' p.0 in
      Ensures-bind (write_job (job_file job.id) job) _ d Q λ u written.
        Ensures-attempt (write_idempotency (idempotency_file hash r) _) _ _ _ Q
          (λ e _.
            Ensures-attempt (remove_job (job_file job.id)) _ _ _ Q (λ x _. Ensures-fail e _ Q)
              (λ x _. Ensures-fail e _ Q))
          (λ v recorded.
            Ensures-bind
              (append_audit codec later r.principal_fingerprint "job-enqueued" "job" job.id ""
                (("type", Detail.text job.type) ∷ []))
              _ _ Q
              λ w audited.
                let same =
                  (append_audit-SameFiles codec later r.principal_fingerprint "job-enqueued" "job"
                      job.id "" (("type", Detail.text job.type) ∷ [])).at
                    _ in
                Ensures-pure (job, false) _ Q
                  (record {
                    existing = record {
                      schema_version = current_schema_version;
                      principal_fingerprint = r.principal_fingerprint;
                      route = r.route;
                      key = r.idempotency_key;
                      request_digest = r.request_digest;
                      job_id = job.id;
                      created_at = later;
                    };
                    on_file =
                        ap (lookup (idempotency_file hash r))
                          (same.same_idempotency ∙ write_idempotency-stored _ _ _ recorded)
                        ∙ lookup-insert_self (idempotency_file hash r) _ _;
                    same_request = refl;
                    job_there =
                        ap (lookup (job_file job.id)) (
                          same.same_jobs
                          ∙ (write_idempotency-SameJobs _ _).at _
                          ∙ write_job-stored (job_file job.id) job d written)
                        ∙ lookup-insert_self (job_file job.id) job d.jobs;
                  }))

find_record-ok :
    (name : String) (d : Disk) {o : Option IdempotencyRecord}
    → (find_record name d).0 ≡ ok o
    → lookup name d.idempotency ≡ o
unfolding find_record io
find_record-ok name d h = ground arith

find_record-SameFiles : (name : String) → Moves SameFiles (find_record name)
unfolding find_record
find_record-SameFiles name =
    Moves-bind SameFiles-preorder io _ io-SameFiles
      (λ _. record { at = SameFiles-preorder.reflexive })

read_job-SameFiles : (name : String) → Moves SameFiles (read_job name)
unfolding read_job
read_job-SameFiles name =
    Moves-bind SameFiles-preorder io _ io-SameFiles (λ _. record {
      at = λ d. record { same_jobs = ground arith; same_idempotency = ground arith };
    })

replay_job-IsRecorded :
    (hash : String → String) (r : CreateJobRequest) (existing : IdempotencyRecord) (d : Disk)
    → lookup (idempotency_file hash r) d.idempotency ≡ some existing
    → Ensures (replay_job r existing) d (λ p d'. IsRecorded hash r d' p.0)
unfolding replay_job
replay_job-IsRecorded hash r existing d found =
    Ensures-if (not (str_eq existing.request_digest r.request_digest)) _ _ d Q
      (λ _. Ensures-fail idempotency_conflict d Q)
      (λ agrees. Ensures-bind (read_job (job_file existing.job_id)) _ d Q λ job read.
        let same = (read_job-SameFiles (job_file existing.job_id)).at d in
        Ensures-pure (job, true) _ Q
          (record {
            existing = existing;
            on_file = ap (lookup (idempotency_file hash r)) same.same_idempotency ∙ found;
            same_request = (eq_iff existing.request_digest r.request_digest).0 (ground arith);
            job_there =
                ap (lookup (job_file existing.job_id)) same.same_jobs ∙ read_job-ok _ d read;
          }))
  where
    Q : Job × Bool → Disk → Type 0
    Q = λ p d'. IsRecorded hash r d' p.0

-- A success leaves the request on record, and its key and digest are not empty.
create_job_idempotent-IsRecorded :
    (codec : AuditCodec) (now : ℕ) (hash : String → String) (r : CreateJobRequest) (later : ℕ)
    (d : Disk)
    → Ensures (create_job_idempotent codec now hash r later) d (λ p d'.
      ((str_eq r.idempotency_key "" || str_eq r.request_digest "") ≡ false)
      × IsRecorded hash r d' p.0)
unfolding create_job_idempotent
create_job_idempotent-IsRecorded codec now hash r later d =
    Ensures-if (str_eq r.idempotency_key "" || str_eq r.request_digest "") _ _ d Recorded
      (λ _. Ensures-fail key_required d Recorded) (λ given p e. (given, rest p e))
  where
    Recorded : Job × Bool → Disk → Type 0
    Recorded = λ p d'.
        ((str_eq r.idempotency_key "" || str_eq r.request_digest "") ≡ false)
        × IsRecorded hash r d' p.0

    by_record :
        (o : Option IdempotencyRecord)
        → lookup (idempotency_file hash r) d.idempotency ≡ o
        → Ensures
            (replay_or_create codec now hash r later o)
            (find_record (idempotency_file hash r) d).1
            (λ p d'. IsRecorded hash r d' p.0)
    by_record none h = create_job-IsRecorded codec now hash r later _
    by_record (some existing) h = replay_job-IsRecorded hash r existing _ (
        ap (lookup (idempotency_file hash r))
          ((find_record-SameFiles (idempotency_file hash r)).at d).same_idempotency
        ∙ h)

    rest :
        Ensures
          (attempt
            (find_record (idempotency_file hash r))
            (λ _. create_job codec now hash r later)
            (replay_or_create codec now hash r later))
          d
          (λ p d'. IsRecorded hash r d' p.0)
    rest =
        Ensures-attempt (find_record (idempotency_file hash r)) _ _ d
          (λ p d'. IsRecorded hash r d' p.0) (λ e _. create_job-IsRecorded codec now hash r later _)
          (λ o found. by_record o (find_record-ok _ d found))

replay_job_calm :
    (r : CreateJobRequest) (existing : IdempotencyRecord) (d : Disk) (job : Job)
    → d.faults ≡ []
    → lookup (job_file existing.job_id) d.jobs ≡ some job
    → replay_job r existing d ≡ (
        if str_eq existing.request_digest r.request_digest
        then (ok (job, true), d)
        else (err idempotency_conflict, d))
unfolding replay_job
replay_job_calm r existing d job calm found =
    elim (Bool-cases (str_eq existing.request_digest r.request_digest)) [
      | inl e ↦ rw e (rw (read_job_calm (job_file existing.job_id) d job calm found) refl)
      | inr e ↦ rw e refl
    ]

-- On a disk without faults, a request that is on record is answered from the record.
answer_recorded :
    (codec : AuditCodec) (now : ℕ) (hash : String → String) (r : CreateJobRequest) (j : Job)
    (g : String) (later : ℕ) (d : Disk) (job : Job)
    → IsRecorded hash r d job
    → (str_eq r.idempotency_key "" || str_eq g "") ≡ false
    → d.faults ≡ []
    → create_job_idempotent codec now hash (record r { job = j; request_digest = g }) later d
      ≡ (if str_eq r.request_digest g then (ok (job, true), d) else (err idempotency_conflict, d))
unfolding create_job_idempotent
answer_recorded codec now hash r j g later d job rec given calm = rw given (
    rw (io_calm d calm) (
      rw rec.on_file (
        replay_job_calm (record r { job = j; request_digest = g }) rec.existing d job calm
          rec.job_there
        ∙ ap
            (λ (q : String).
              if str_eq q g then (ok (job, true), d) else (err idempotency_conflict, d))
            rec.same_request)))

-- After a successful `CreateJobIdempotent`, whatever calls failed on the way, a request with the
-- same principal, route and key that has a digest and meets no failing call of the system is answered
-- from the record, and changes nothing: with the same request digest it returns the job that the
-- first call returned, marked as existing, whatever fresh job it proposes; with any other digest it
-- is a conflict.
pub create_job_idempotent-retry :
    (codec : AuditCodec) (now : ℕ) (hash : String → String) (r : CreateJobRequest) (later : ℕ)
    (d : Disk) (answer : Job × Bool)
    → (create_job_idempotent codec now hash r later d).0 ≡ ok answer
    → (now' later' : ℕ) (j : Job) (g : String) → str_eq g "" ≡ false
    → let d' = record ((create_job_idempotent codec now hash r later d).1) { faults = [] } in
      create_job_idempotent codec now' hash (record r { job = j; request_digest = g }) later' d' ≡ (
        if str_eq r.request_digest g
        then (ok (answer.0, true), d')
        else (err idempotency_conflict, d'))
create_job_idempotent-retry codec now hash r later d p e now' later' j g nonempty =
    let (given, rec) = create_job_idempotent-IsRecorded codec now hash r later d p e in
    answer_recorded codec now' hash r j g later' _ p.0
      (record {
        existing = rec.existing;
        on_file = rec.on_file;
        same_request = rec.same_request;
        job_there = rec.job_there;
      })
      (ground arith) refl
