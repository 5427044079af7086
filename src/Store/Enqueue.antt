-- ===== src/Store/Enqueue.antt =====
-- `CreateJobIdempotent` of internal/store/store.go.
use worldbisect.Prelude.{
  ℕ, String, ◌≡◌, refl, ap, ◌∙◌, ◌⊎◌, inl, inr, Option, none, some, ◌||◌, arith, str_eq, eq_iff,
  Bool-cases,
}
use worldbisect.Prelude.Exec.{
  ok, Moves, Moves-pure, Moves-fail, Moves-bind, Moves-bind_at, Moves-attempt_at,
}
use worldbisect.Prelude.Files.{
  lookup, insert, erase, lookup-insert, lookup-insert_self, lookup-erase,
}
use worldbisect.Model.{Job, IdempotencyRecord}
use worldbisect.Store.Disk.{Disk, io, write_job, remove_job, write_idempotency}
use worldbisect.Store.AuditLog.{AuditCodec}
use worldbisect.Store.JobFiles.{
  CreateJobRequest, job_file, current_schema_version, create_job, replay_job, find_record,
  replay_or_create, create_job_idempotent, idempotency_file,
}
use worldbisect.Store.Lifecycle.{
  IsNew, here, enqueue, withdraw, JobsEvolve, JobsEvolve-preorder, SameJobs, SameJobs-preorder,
  SameJobs-JobsEvolve, io-SameJobs, append_audit-SameJobs, read_job-SameJobs, write_job-jobs,
  Evolves-if,
}

pub write_idempotency-SameJobs :
    (name : String) (r : IdempotencyRecord) → Moves SameJobs (write_idempotency name r)
unfolding write_idempotency
write_idempotency-SameJobs name r =
    Moves-bind SameJobs-preorder io _ io-SameJobs (λ _. record { at = λ d. refl })

pub find_record-SameJobs : (name : String) → Moves SameJobs (find_record name)
unfolding find_record
find_record-SameJobs name =
    Moves-bind SameJobs-preorder io _ io-SameJobs (λ _. record { at = λ d. refl })

replay_job-SameJobs :
    (r : CreateJobRequest) (existing : IdempotencyRecord) → Moves SameJobs (replay_job r existing)
unfolding replay_job
replay_job-SameJobs r existing =
    elim (Bool-cases (str_eq existing.request_digest r.request_digest)) [
      | inl e ↦ rw e (
          Moves-bind SameJobs-preorder _ _ (read_job-SameJobs _)
            (λ job. Moves-pure SameJobs-preorder _))
      | inr e ↦ rw e (Moves-fail SameJobs-preorder _)
    ]

remove_job-jobs :
    (name : String) (d : Disk)
    → ((remove_job name d).1.jobs ≡ d.jobs) ⊎ ((remove_job name d).1.jobs ≡ erase name d.jobs)
unfolding remove_job io
remove_job-jobs name d = ground arith

pub write_job-stored :
    (name : String) (job : Job) (d : Disk) {u : Unit {0}}
    → (write_job name job d).0 ≡ ok u
    → (write_job name job d).1.jobs ≡ insert name job d.jobs
unfolding write_job io
write_job-stored name job d h = ground arith

module _ {m : ℕ} where
  write_job-enqueues :
      (name : String) (job : Job) (d : Disk)
      → lookup name d.jobs ≡ none
      → IsNew job
      → JobsEvolve m d (write_job name job d).1
  write_job-enqueues name job d absent new = elim (write_job-jobs name job d) [
    | inl same ↦ SameJobs-JobsEvolve same
    | inr written ↦ record {
      at = λ n.
          rw (written, lookup-insert name n job d.jobs)
            (elim (Bool-cases (str_eq name n)) [
              | inl e ↦
                  rw e (
                    let eq : name ≡ n = (eq_iff name n).0 e in enqueue (rw (← eq, absent) here) new)
              | inr e ↦ rw e here
            ]);
    }
  ]

  remove_job-withdraws :
      (name : String) (job : Job) (d : Disk)
      → lookup name d.jobs ≡ some job
      → IsNew job
      → JobsEvolve m d (remove_job name d).1
  remove_job-withdraws name job d found new = elim (remove_job-jobs name d) [
    | inl same ↦ SameJobs-JobsEvolve same
    | inr removed ↦ record {
      at = λ n.
          rw (removed, lookup-erase name n d.jobs)
            (elim (Bool-cases (str_eq name n)) [
              | inl e ↦
                  rw e (
                    let eq : name ≡ n = (eq_iff name n).0 e in withdraw (rw (← eq, found) here) new)
              | inr e ↦ rw e here
            ]);
    }
  ]

module _ (codec : AuditCodec) (now : ℕ) (hash : String → String) (m : ℕ) where
  create_job-Evolves :
      (r : CreateJobRequest) (later : ℕ) (d : Disk)
      → lookup (job_file r.job.id) d.jobs ≡ none
      → IsNew r.job
      → JobsEvolve m d (create_job codec now hash r later d).1
  unfolding create_job
  create_job-Evolves r later d absent new =
      let job : Job = record r.job {
        schema_version = current_schema_version;
        created_at = now;
        updated_at = now;
      } in
      let new' : IsNew job = record {
        waiting = new.waiting;
        untried = new.untried;
        unowned = new.unowned;
        unleased = new.unleased;
      } in
      let name : String = job_file r.job.id in
      Moves-bind_at (JobsEvolve-preorder m) (write_job name job) _ d
        (write_job-enqueues name job d absent new')
        (λ u written.
          let stored = write_job-stored name job d written in
          Moves-attempt_at (JobsEvolve-preorder m) (write_idempotency _ _) _ _ _
            (SameJobs-JobsEvolve ((write_idempotency-SameJobs _ _).at _))
            (λ e _.
              Moves-attempt_at (JobsEvolve-preorder m) (remove_job name) _ _ _
                (remove_job-withdraws name job _
                  (ap (lookup name) ((write_idempotency-SameJobs _ _).at _ ∙ stored)
                    ∙ lookup-insert_self name job d.jobs)
                  new')
                (λ x _. (JobsEvolve-preorder m).reflexive _)
                (λ x _. (JobsEvolve-preorder m).reflexive _))
            (λ v _. SameJobs-JobsEvolve (
              (Moves-bind SameJobs-preorder _ _ (append_audit-SameJobs codec later _ _ _ _ _ _)
                  (λ w. Moves-pure SameJobs-preorder _)).at
                _)))

  pub create_job_idempotent-Evolves :
      (r : CreateJobRequest) (later : ℕ) (d : Disk)
      → lookup (job_file r.job.id) d.jobs ≡ none
      → IsNew r.job
      → JobsEvolve m d (create_job_idempotent codec now hash r later d).1
  unfolding create_job_idempotent
  create_job_idempotent-Evolves r later d absent new =
      Evolves-if (str_eq r.idempotency_key "" || str_eq r.request_digest "") _ _ d
        (λ _. (JobsEvolve-preorder m).reflexive d)
        (λ _.
          Moves-attempt_at (JobsEvolve-preorder m) (find_record (idempotency_file hash r)) _ _ d
            (SameJobs-JobsEvolve looked) (λ e _. create tt) (λ found _. by_record found))
    where
      looked : SameJobs d (find_record (idempotency_file hash r) d).1
      looked = (find_record-SameJobs _).at d

      create :
          (q : Unit {0})
          → JobsEvolve m
              (find_record (idempotency_file hash r) d).1
              (create_job codec now hash r later (find_record (idempotency_file hash r) d).1).1
      create q = create_job-Evolves r later _ (ap (lookup (job_file r.job.id)) looked ∙ absent) new

      by_record :
          (found : Option IdempotencyRecord)
          → JobsEvolve m
              (find_record (idempotency_file hash r) d).1
              (replay_or_create codec now hash r later found
                (find_record (idempotency_file hash r) d).1).1
      by_record none = create tt
      by_record (some existing) = SameJobs-JobsEvolve ((replay_job-SameJobs r existing).at _)
