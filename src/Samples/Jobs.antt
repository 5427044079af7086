-- ===== src/Samples/Jobs.antt =====
-- The store of internal/store on a job that is enqueued, claimed and completed.
use Prim.Native.String.{◌++◌ as append}
use worldbisect.Prelude.{String, ◌≡◌, refl, true, false, some, List, [], ◌∷◌, str_eq, if◌then◌else◌}
use worldbisect.Prelude.Exec.{ok, err}
use worldbisect.Prelude.Files.{lookup, insert, erase, names, sort_names}
use worldbisect.Model.{Job, queued, succeeded, AuditEvent}
use worldbisect.Store.Disk.{
  idempotency_conflict, AuditLine, event, part, Disk, io, read_job, write_job, write_idempotency,
}
use worldbisect.Store.AuditLog.{
  AuditCodec, audit_hash, last_audit, next_event, append_line, tear_line, read_last, append_audit,
  verify_from, check_hash,
}
use worldbisect.Store.JobFiles.{
  CreateJobRequest, claimed_job, claim_job, claim_from, claim_next_job, job_names, complete_job,
  requeue_expired_jobs, requeue_from, create_job, create_job_idempotent, idempotency_file,
  find_record, replay_job,
}
use worldbisect.Store.Lifecycle.{IsNew}
use worldbisect.Store.Agreement.{verified_logs_agree, CollisionFree, Listed, first, later}
use worldbisect.Store.Claim.{CompleteClaim, claim_next_job-CompleteClaim}
use worldbisect.Store.History.{
  claims, completes, creates, requeues, History, start, after, terminal_is_final, AllWellFormed,
  History-IsWellFormed,
}
use worldbisect.Store.Retry.{create_job_idempotent-retry}

-- A digest that names the event by its actor and action.
abbrev codec : AuditCodec
codec = record { digest = λ e. some (append e.actor (append "/" e.action)); line = λ e. event e }

unfoldable hash : String → String
hash s = s

abbrev proposed : Job
proposed = record {
  schema_version = 3;
  id = "j1";
  type = "analyze";
  state = queued;
  payload = "";
  principal = "p";
  created_at = 0;
  updated_at = 0;
  lease_owner = "";
  lease_expires = 0;
  heartbeat_at = 0;
  attempts = 0;
  result_ref = "";
  error = "";
}

abbrev waiting : Job
waiting = record proposed { created_at = 1; updated_at = 1 }

abbrev finished : Job
finished = record waiting {
  state = succeeded;
  attempts = 1;
  result_ref = "r1";
  heartbeat_at = 5;
  updated_at = 9;
}

abbrev request : CreateJobRequest
request = record {
  job = proposed;
  principal_fingerprint = "p";
  route = "/jobs";
  idempotency_key = "k";
  request_digest = "d1";
}

abbrev no_jobs : Disk
no_jobs = record {
  jobs = [];
  idempotency = [];
  audit = [];
  audit_whole = true;
  tears = [];
  cache = [];
  faults = [];
}

abbrev created : Disk
created = (create_job_idempotent codec 1 hash request 2 no_jobs).1

abbrev claimed : Disk
claimed = (claim_next_job codec 5 "w1" 60 3 created).1

abbrev completed : Disk
completed = (complete_job codec 9 "j1" "w1" succeeded "r1" "" claimed).1

proposed-IsNew : IsNew proposed
proposed-IsNew = record { waiting = refl; untried = refl; unowned = refl; unleased = refl }

enqueued_and_completed : History codec hash 3 no_jobs completed
unfolding lookup
enqueued_and_completed =
    after (after (after start (creates 1 2 request refl proposed-IsNew)) (claims 5 "w1" 60))
      (completes 9 "j1" "w1" succeeded "r1" "")

-- A reaper and a second worker come by.
abbrev visited : Disk
visited = (claim_next_job codec 30 "w2" 60 3 (requeue_expired_jobs 20 3 completed).1).1

visits : History codec hash 3 completed visited
visits = after (after start (requeues 20)) (claims 30 "w2" 60)

terminal_is_final_example : lookup "j1.json" visited.jobs ≡ some finished
unfolding create_job_idempotent create_job replay_job find_record idempotency_file claim_next_job
    claim_from claim_job complete_job job_names read_job write_job write_idempotency io append_audit
    read_last append_line next_event audit_hash last_audit lookup insert erase names sort_names
    verify_from check_hash hash requeue_expired_jobs requeue_from
terminal_is_final_example =
    terminal_is_final codec hash 3 completed visited "j1.json" finished visits refl refl

no_jobs-AllWellFormed : AllWellFormed 3 no_jobs
unfolding lookup
no_jobs-AllWellFormed name job found = cc

History-IsWellFormed_example : AllWellFormed 3 completed
History-IsWellFormed_example =
    History-IsWellFormed codec hash 3 no_jobs completed enqueued_and_completed no_jobs-AllWellFormed

claim_next_job-CompleteClaim_example :
    CompleteClaim 5 3 60 "w1" created (some (claimed_job "w1" 60 5 waiting)) claimed
unfolding create_job_idempotent create_job replay_job find_record idempotency_file claim_next_job
    claim_from claim_job complete_job job_names read_job write_job write_idempotency io append_audit
    read_last append_line next_event audit_hash last_audit lookup insert erase names sort_names
    verify_from check_hash hash requeue_expired_jobs requeue_from
claim_next_job-CompleteClaim_example =
    claim_next_job-CompleteClaim codec 5 3 60 "w1" created (some (claimed_job "w1" 60 5 waiting))
      refl

-- A write that fails in the middle of a line leaves a log that does not verify.
torn_log :
    verify_from codec
      (append_audit codec 10 "w2" "purge" "cache" "c1" "" [] (record created {
        faults = false ∷ false ∷ false ∷ false ∷ true ∷ [];
        tears = part ∷ [];
      })).1.audit
      ""
      0
    ≡ ok (record { valid = false; entries = 1; error = "" })
unfolding create_job_idempotent create_job find_record idempotency_file write_job write_idempotency
    io append_audit read_last append_line tear_line next_event audit_hash last_audit lookup insert
    verify_from check_hash hash
torn_log = refl

-- A second client retries with a fresh job, and one reuses the key for another request.
abbrev fresh_job : Job
fresh_job = record proposed { id = "j9" }

create_job_idempotent-retry_example :
    create_job_idempotent codec 7 hash
      (record request { job = fresh_job; request_digest = "d1" })
      8
      (record created { faults = [] })
    ≡ (if str_eq "d1" "d1"
        then (ok (waiting, true), record created { faults = [] })
        else (err idempotency_conflict, record created { faults = [] }))
unfolding create_job_idempotent create_job replay_job find_record idempotency_file claim_next_job
    claim_from claim_job complete_job job_names read_job write_job write_idempotency io append_audit
    read_last append_line next_event audit_hash last_audit lookup insert erase names sort_names
    verify_from check_hash hash requeue_expired_jobs requeue_from
create_job_idempotent-retry_example =
    create_job_idempotent-retry codec 1 hash request 2 no_jobs (waiting, false) refl 7 8 fresh_job
      "d1" refl

-- A log with the same event, as a backup has it.
abbrev backup : List AuditLine
backup = created.audit

only_one :
    (P : AuditEvent → Type 0) (e : AuditEvent) (x : AuditEvent)
    → Listed x (event e ∷ [])
    → P e
    → P x
only_one P e x first p = p
only_one P e x (later q) p = elim q [ ]

one_event-CollisionFree : (e : AuditEvent) → CollisionFree codec (event e ∷ []) (event e ∷ [])
one_event-CollisionFree e x y h in_log in_backup _ _ =
    only_one (λ z. record z { hash = "" } ≡ record y { hash = "" }) e x in_log
      (only_one (λ z. record e { hash = "" } ≡ record z { hash = "" }) e y in_backup refl)

verified_logs_agree_example : created.audit ≡ backup
unfolding create_job_idempotent create_job replay_job find_record idempotency_file claim_next_job
    claim_from claim_job complete_job job_names read_job write_job write_idempotency io append_audit
    read_last append_line next_event audit_hash last_audit lookup insert erase names sort_names
    verify_from check_hash hash requeue_expired_jobs requeue_from
verified_logs_agree_example =
    verified_logs_agree codec created.audit backup 1 1 (one_event-CollisionFree _) refl refl refl
      refl
