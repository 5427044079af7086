-- ===== src/Store/JobFiles.antt =====
-- The operations of internal/store/store.go on jobs.
use Prim.Native.String.{◌++◌ as append}
use worldbisect.Prelude.{
  ℕ, ◌+◌, String, Bool, true, false, Option, none, some, List, [], ◌∷◌, ◌||◌, not, ltb, leb, ◌==◌,
  str_eq, if◌then◌else◌,
}
use worldbisect.Prelude.Exec.{ok, pure, fail, attempt, ◌>>=◌, ◌>>◌}
use worldbisect.Prelude.Files.{lookup, names, sort_names}
use worldbisect.Model.{Job, JobState, queued, running, succeeded, failed, IdempotencyRecord, Detail}
use worldbisect.Store.Disk.{
  idempotency_conflict, key_required, lease_not_owned, invalid_state, Io, io, read_job, write_job,
  remove_job, write_idempotency,
}
use worldbisect.Store.AuditLog.{AuditCodec, append_audit}

abbrev pub current_schema_version : ℕ
current_schema_version = 3

abbrev pub is_queued : JobState → Bool
is_queued queued = true
is_queued _ = false

abbrev pub is_running : JobState → Bool
is_running running = true
is_running _ = false

-- The two states that `CompleteJob` accepts.
abbrev pub is_terminal : JobState → Bool
is_terminal succeeded = true
is_terminal failed = true
is_terminal _ = false

abbrev pub job_file : String → String
job_file id = append id ".json"

pub record CreateJobRequest : Type 0 where
  pub job : Job
  pub principal_fingerprint : String
  pub route : String
  pub idempotency_key : String
  pub request_digest : String

-- `hash` stands for SHA-256 in hexadecimal, of a text.
unfoldable pub idempotency_file : (String → String) → CreateJobRequest → String
idempotency_file hash r =
    append
      (hash (
        append r.principal_fingerprint
          (append "\0" (append r.route (append "\0" r.idempotency_key)))))
      ".json"

-- The part after a record was read.
unfoldable pub replay_job : CreateJobRequest → IdempotencyRecord → Io (Job × Bool)
unfolding read_job
replay_job r existing =
    if not (str_eq existing.request_digest r.request_digest)
    then fail idempotency_conflict
    else do job ← read_job (job_file existing.job_id); pure (job, true)

-- `os.ReadFile` of the record.
unfoldable pub find_record : String → Io (Option IdempotencyRecord)
find_record name = do io; λ d. (ok (lookup name d.idempotency), d)

-- `filepath.Glob` of the jobs directory, sorted. It takes a directory that cannot be read for one
-- without files.
unfoldable pub job_names : Io (List String)
unfolding sort_names names
job_names = attempt io (λ _. pure []) (λ _ d. (ok (sort_names (names d.jobs)), d))

-- The job as `ClaimNextJob` writes it.
abbrev pub claimed_job : String → ℕ → ℕ → Job → Job
claimed_job worker lease now job = record job {
  state = running;
  lease_owner = worker;
  lease_expires = now + lease;
  heartbeat_at = now;
  attempts = job.attempts + 1;
  updated_at = now;
}

module _ (now : ℕ) where
  unfoldable pub heartbeat_job : String → String → ℕ → Io (Unit {0})
  unfolding read_job write_job
  heartbeat_job id worker lease = do
    job ← read_job (job_file id)
    if not (is_running job.state) || not (str_eq job.lease_owner worker)
        then fail lease_not_owned
        else write_job (job_file id)
            (record job { heartbeat_at = now; lease_expires = now + lease; updated_at = now })

  -- The job as `CompleteJob` writes it.
  abbrev pub completed_job : JobState → String → String → Job → Job
  completed_job state result_ref message job = record job {
    state = state;
    result_ref = result_ref;
    error = message;
    lease_owner = "";
    lease_expires = 0;
    updated_at = now;
  }

  -- The job as `RequeueExpiredJobs` writes it.
  abbrev pub expired_job : ℕ → Job → Job
  expired_job max_attempts job =
      let t =
        if leb max_attempts job.attempts
        then record job {
          state = failed;
          error = "job lease expired and maximum attempts were reached";
        }
        else record job { state = queued } in
      record t { lease_owner = ""; lease_expires = 0; updated_at = now }

  -- `continue` of its loop: not running, or no lease, or a lease that has not expired.
  abbrev pub holds_lease : Job → Bool
  holds_lease job =
      not (is_running job.state) || job.lease_expires == 0 || ltb now job.lease_expires

  unfoldable pub requeue_from : ℕ → List String → ℕ → Io ℕ
  unfolding read_job write_job
  requeue_from max_attempts [] count = pure count
  requeue_from max_attempts (name ∷ rest) count = do
    job ← read_job name
    if holds_lease job then requeue_from max_attempts rest count else do
      write_job name (expired_job max_attempts job)
      requeue_from max_attempts rest (count + 1)

  unfoldable pub requeue_expired_jobs : ℕ → Io ℕ
  unfolding requeue_from job_names
  requeue_expired_jobs max_attempts = do files ← job_names; requeue_from max_attempts files 0

module _ (codec : AuditCodec) (now : ℕ) where
  unfoldable pub claim_job : String → ℕ → String → Job → Io (Option Job)
  unfolding write_job append_audit
  claim_job worker lease name job = do
    let job' = claimed_job worker lease now job
    write_job name job'
    append_audit codec now worker "job-claimed" "job" job'.id ""
        (("attempt", Detail.number job'.attempts) ∷ [])
    pure (some job')

  -- The loop of `ClaimNextJob` over the sorted names.
  unfoldable pub claim_from : String → ℕ → ℕ → List String → Io (Option Job)
  unfolding claim_job read_job
  claim_from worker lease max_attempts [] = pure none
  claim_from worker lease max_attempts (name ∷ rest) = do
    job ← read_job name
    if not (is_queued job.state) || leb max_attempts job.attempts
        then claim_from worker lease max_attempts rest
        else claim_job worker lease name job

  unfoldable pub claim_next_job : String → ℕ → ℕ → Io (Option Job)
  unfolding claim_from job_names
  claim_next_job worker lease max_attempts = do
    files ← job_names
    claim_from worker lease max_attempts files

  unfoldable pub complete_job : String → String → JobState → String → String → Io (Unit {0})
  unfolding read_job write_job append_audit
  complete_job id worker state result_ref message = do
    job ← read_job (job_file id)
    if not (is_running job.state) || not (str_eq job.lease_owner worker)
        then fail lease_not_owned
        else if not (is_terminal state)
        then fail invalid_state
        else do
          write_job (job_file id) (completed_job now state result_ref message job)
          append_audit codec now worker "job-completed" "job" job.id ""
              (("state", Detail.state state) ∷ [])

module _ (codec : AuditCodec) (now : ℕ) (hash : String → String) where
  -- The part of `CreateJobIdempotent` after no record was found. `later` is the second reading
  -- of the clock.
  unfoldable pub create_job : CreateJobRequest → ℕ → Io (Job × Bool)
  unfolding idempotency_file write_job remove_job write_idempotency append_audit
  create_job r later = do
    let job = record r.job {
      schema_version = current_schema_version;
      created_at = now;
      updated_at = now;
    }
    write_job (job_file job.id) job
    attempt
        (write_idempotency (idempotency_file hash r) (record {
          schema_version = current_schema_version;
          principal_fingerprint = r.principal_fingerprint;
          route = r.route;
          key = r.idempotency_key;
          request_digest = r.request_digest;
          job_id = job.id;
          created_at = later;
        }))
        (λ e. attempt (remove_job (job_file job.id)) (λ _. fail e) (λ _. fail e))
        (λ _. do
          append_audit codec later r.principal_fingerprint "job-enqueued" "job" job.id ""
              (("type", Detail.text job.type) ∷ [])
          pure (job, false))

  abbrev pub replay_or_create : CreateJobRequest → ℕ → Option IdempotencyRecord → Io (Job × Bool)
  replay_or_create r later none = create_job r later
  replay_or_create r later (some existing) = replay_job r existing

  -- A record that cannot be read, for whatever reason, counts as none.
  unfoldable pub create_job_idempotent : CreateJobRequest → ℕ → Io (Job × Bool)
  unfolding create_job replay_job find_record idempotency_file
  create_job_idempotent r later =
      if str_eq r.idempotency_key "" || str_eq r.request_digest ""
      then fail key_required
      else attempt (find_record (idempotency_file hash r)) (λ _. create_job r later)
          (replay_or_create r later)
