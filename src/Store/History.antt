-- ===== src/Store/History.antt =====
-- Every history of the job operations of internal/store/store.go: any workers, any clock readings,
-- any failures of the system. The mutex makes a history a sequence of whole operations.
use worldbisect.Prelude.{
  ℕ, ◌≤◌, ◌<◌, String, ◌≡◌, refl, ap, Bool, true, false, Option, none, some, List, arith, ◌≢◌,
  subst,
}
use worldbisect.Prelude.Files.{lookup}
use worldbisect.Model.{Job, JobState, running}
use worldbisect.Store.Disk.{Disk}
use worldbisect.Store.AuditLog.{AuditCodec}
use worldbisect.Store.JobFiles.{
  CreateJobRequest, job_file, is_terminal, claim_next_job, heartbeat_job, complete_job,
  requeue_expired_jobs, create_job_idempotent,
}
use worldbisect.Store.Lifecycle.{
  Transition, claim, heartbeat, complete, requeue, give_up, IsNew, Evolves, here, step, enqueue,
  withdraw, JobsEvolve, JobsEvolve-preorder, SameJobs-JobsEvolve,
}
use worldbisect.Store.Steps.{
  claim_next_job-Evolves, heartbeat_job-Evolves, complete_job-Evolves, requeue_expired_jobs-Evolves,
}
use worldbisect.Store.Enqueue.{create_job_idempotent-Evolves}

module _ (codec : AuditCodec) (hash : String → String) (max_attempts : ℕ) where
  -- One operation of a worker, of the reaper or of a client, or a change of which calls will fail.
  -- A new job has an identifier of its own, as `id.New` gives it, and starts as `Enqueue` makes it.
  pub data Operation (d : Disk) : Disk → Type 0 where
    claims :
        (now : ℕ) (worker : String) (lease : ℕ)
        → Operation d (claim_next_job codec now worker lease max_attempts d).1
    heartbeats :
        (now : ℕ) (id worker : String) (lease : ℕ)
        → Operation d (heartbeat_job now id worker lease d).1
    completes :
        (now : ℕ) (id worker : String) (state : JobState) (result_ref message : String)
        → Operation d (complete_job codec now id worker state result_ref message d).1
    requeues : (now : ℕ) → Operation d (requeue_expired_jobs now max_attempts d).1
    creates :
        (now later : ℕ) (r : CreateJobRequest)
        → lookup (job_file r.job.id) d.jobs ≡ none
        → IsNew r.job
        → Operation d (create_job_idempotent codec now hash r later d).1
    disturbs : (faults : List Bool) → Operation d (record d { faults = faults })

  pub data History (d : Disk) : Disk → Type 0 where
    start : History d d
    after : {e f : Disk} → History d e → Operation e f → History d f

  Operation-Evolves : {d e : Disk} → Operation d e → JobsEvolve max_attempts d e
  Operation-Evolves {d} (claims now worker lease) =
      claim_next_job-Evolves codec now max_attempts lease worker d
  Operation-Evolves {d} (heartbeats now id worker lease) =
      heartbeat_job-Evolves now max_attempts lease id worker d
  Operation-Evolves {d} (completes now id worker state r e) =
      complete_job-Evolves codec now max_attempts id worker state r e d
  Operation-Evolves {d} (requeues now) = requeue_expired_jobs-Evolves now max_attempts d
  Operation-Evolves {d} (creates now later r absent new) =
      create_job_idempotent-Evolves codec now hash max_attempts r later d absent new
  Operation-Evolves (disturbs faults) = SameJobs-JobsEvolve refl

  pub History-Evolves : {d e : Disk} → History d e → JobsEvolve max_attempts d e
  History-Evolves {d} start = (JobsEvolve-preorder max_attempts).reflexive d
  History-Evolves (after h op) =
      (JobsEvolve-preorder max_attempts).transitive _ _ _ (History-Evolves h) (Operation-Evolves op)

Transition-not_terminal : {m : ℕ} {j j' : Job} → Transition m j j' → is_terminal j.state ≡ false
Transition-not_terminal (claim p _ _ _) = rw p
Transition-not_terminal (heartbeat p _ _ _) = rw p
Transition-not_terminal (complete p _ _ _ _) = rw p
Transition-not_terminal (requeue p _ _ _ _ _) = rw p
Transition-not_terminal (give_up p _ _ _ _ _) = rw p

is_terminal_of : Option Job → Bool
is_terminal_of none = false
is_terminal_of (some j) = is_terminal j.state

Evolves-terminal :
    {m : ℕ} {a b : Option Job} (job : Job)
    → a ≡ some job
    → is_terminal job.state ≡ true
    → Evolves m a b
    → b ≡ some job
unfolding is_terminal_of
Evolves-terminal job found final here = found
Evolves-terminal job found final (step e t) = cc (
  Evolves-terminal job found final e,
  ap is_terminal_of (Evolves-terminal job found final e),
  Transition-not_terminal t,
)
Evolves-terminal job found final (enqueue e n) = cc (Evolves-terminal job found final e)
Evolves-terminal job found final (withdraw e n) =
    cc (ap is_terminal_of (Evolves-terminal job found final e), ap is_terminal n.waiting)

-- Through any history, a job that has succeeded or failed keeps its file as it is: no later
-- operation, worker or failure of the system changes it.
pub terminal_is_final :
    (codec : AuditCodec) (hash : String → String) (max_attempts : ℕ) (d d' : Disk) (name : String)
    (job : Job)
    → History codec hash max_attempts d d'
    → lookup name d.jobs ≡ some job
    → is_terminal job.state ≡ true
    → lookup name d'.jobs ≡ some job
terminal_is_final codec hash max_attempts d d' name job h found final =
    Evolves-terminal job found final ((History-Evolves codec hash max_attempts h).at name)

-- What every job file satisfies between operations.
pub record IsWellFormed (max_attempts : ℕ) (j : Job) : Type 0 where
  pub attempts_capped : j.attempts ≤ max_attempts
  pub running_tried : j.state ≡ running → 0 < j.attempts
  pub idle_unowned : j.state ≢ running → j.lease_owner ≡ ""
  pub idle_unleased : j.state ≢ running → j.lease_expires ≡ 0

Transition-IsWellFormed :
    {m : ℕ} {j j' : Job} → Transition m j j' → IsWellFormed m j → IsWellFormed m j'
Transition-IsWellFormed (claim a b c d) w = ground arith
Transition-IsWellFormed (heartbeat a b c d) w = ground arith
Transition-IsWellFormed (complete a b c d e) w = ground arith
Transition-IsWellFormed (requeue a b c d e f) w = ground arith
Transition-IsWellFormed (give_up a b c d e f) w = ground arith

abbrev pub AllWellFormed : ℕ → Disk → Type 0
AllWellFormed m d = (name : String) (job : Job) → lookup name d.jobs ≡ some job → IsWellFormed m job

-- A file that is there satisfies the predicate.
abbrev Holds : (Job → Type 0) → Option Job → Type 0
Holds P none = Unit
Holds P (some j) = P j

Holds-at : (P : Job → Type 0) (a : Option Job) → ((j : Job) → a ≡ some j → P j) → Holds P a
Holds-at P none h = tt
Holds-at P (some j) h = h j refl

Evolves-IsWellFormed :
    {m : ℕ} {a b : Option Job} → Evolves m a b → Holds (IsWellFormed m) a → Holds (IsWellFormed m) b
Evolves-IsWellFormed here w = w
Evolves-IsWellFormed (step e t) w = Transition-IsWellFormed t (Evolves-IsWellFormed e w)
Evolves-IsWellFormed (enqueue e n) w = ground arith
Evolves-IsWellFormed (withdraw e n) w = tt

-- Every history keeps the job files well formed: no job is tried more than `max_attempts` times, a
-- running job has been claimed, and only a running job has an owner or a lease.
pub History-IsWellFormed :
    (codec : AuditCodec) (hash : String → String) (max_attempts : ℕ) (d d' : Disk)
    → History codec hash max_attempts d d'
    → AllWellFormed max_attempts d
    → AllWellFormed max_attempts d'
History-IsWellFormed codec hash m d d' h w name job found =
    subst (Holds (IsWellFormed m)) found
      (Evolves-IsWellFormed ((History-Evolves codec hash m h).at name) (Holds-at _ _ (w name)))
