-- ===== src/Store/Lifecycle.antt =====
-- The states of one job file in internal/store/store.go as a step relation, and the lemmas on the
-- calls of the system by which an operation on jobs is shown to make only such steps.
use worldbisect.Prelude.{
  ℕ, ◌+◌, ◌≤◌, ◌<◌, String, ◌≡◌, refl, sym, ◌∙◌, subst, ◌⊎◌, inl, inr, Bool, true, false, Option,
  none, some, List, [], ◌∷◌, arith, str_eq, eq_iff, Bool-cases, if◌then◌else◌,
}
use worldbisect.Prelude.Exec.{
  ok, ◌>>=◌, Moves, IsPreorder, Moves-fail, Moves-bind, Moves-bind_at, Moves-attempt_at,
}
use worldbisect.Prelude.Files.{lookup, insert, lookup-insert}
use worldbisect.Model.{Job, queued, running, failed, AuditEvent, Detail}
use worldbisect.Store.Disk.{
  AuditLine, Tear, nothing, part, unterminated, Disk, Io, io, read_job, write_job,
}
use worldbisect.Store.AuditLog.{
  AuditCodec, append_audit, tear_line, append_line, read_last, next_event,
}
use worldbisect.Store.JobFiles.{is_terminal, job_names}

-- One write of a job file by the operations on existing jobs, with the program's `maxAttempts`.
pub data Transition (max_attempts : ℕ) (j j' : Job) : Type 0 where
  claim :
      j.state ≡ queued
      → j.attempts < max_attempts
      → j'.state ≡ running
      → j'.attempts ≡ j.attempts + 1
      → Transition max_attempts j j'
  heartbeat :
      j.state ≡ running
      → j'.state ≡ running
      → j'.lease_owner ≡ j.lease_owner
      → j'.attempts ≡ j.attempts
      → Transition max_attempts j j'
  complete :
      j.state ≡ running
      → is_terminal j'.state ≡ true
      → j'.lease_owner ≡ ""
      → j'.lease_expires ≡ 0
      → j'.attempts ≡ j.attempts
      → Transition max_attempts j j'
  requeue :
      j.state ≡ running
      → j.attempts < max_attempts
      → j'.state ≡ queued
      → j'.lease_owner ≡ ""
      → j'.lease_expires ≡ 0
      → j'.attempts ≡ j.attempts
      → Transition max_attempts j j'
  give_up :
      j.state ≡ running
      → max_attempts ≤ j.attempts
      → j'.state ≡ failed
      → j'.lease_owner ≡ ""
      → j'.lease_expires ≡ 0
      → j'.attempts ≡ j.attempts
      → Transition max_attempts j j'

-- A job as `Manager.Enqueue` makes it.
pub record IsNew (j : Job) : Type 0 where
  pub waiting : j.state ≡ queued
  pub untried : j.attempts ≡ 0
  pub unowned : j.lease_owner ≡ ""
  pub unleased : j.lease_expires ≡ 0

-- How the content of one file may go on from `a`; `none` is a file that is not there.
pub data Evolves (max_attempts : ℕ) (a : Option Job) : Option Job → Type 0 where
  here : Evolves max_attempts a a
  step :
      {j j' : Job}
      → Evolves max_attempts a (some j)
      → Transition max_attempts j j'
      → Evolves max_attempts a (some j')
  enqueue : {j : Job} → Evolves max_attempts a none → IsNew j → Evolves max_attempts a (some j)
  withdraw : {j : Job} → Evolves max_attempts a (some j) → IsNew j → Evolves max_attempts a none

Evolves-trans : {m : ℕ} {a b c : Option Job} → Evolves m a b → Evolves m b c → Evolves m a c
Evolves-trans p here = p
Evolves-trans p (step q t) = step (Evolves-trans p q) t
Evolves-trans p (enqueue q n) = enqueue (Evolves-trans p q) n
Evolves-trans p (withdraw q n) = withdraw (Evolves-trans p q) n

-- Every file of the jobs directory went on in such steps.
pub record JobsEvolve (max_attempts : ℕ) (d d' : Disk) : Type 0 where
  pub at : (name : String) → Evolves max_attempts (lookup name d.jobs) (lookup name d'.jobs)

pub JobsEvolve-preorder : (m : ℕ) → IsPreorder (JobsEvolve m)
JobsEvolve-preorder m = record {
  reflexive = λ d. record { at = λ n. here };
  transitive = λ d e f p q. record { at = λ n. Evolves-trans (p.at n) (q.at n) };
}

-- The jobs directory is left alone.
abbrev pub SameJobs : Disk → Disk → Type 0
SameJobs d d' = d'.jobs ≡ d.jobs

pub SameJobs-preorder : IsPreorder SameJobs
SameJobs-preorder = record { reflexive = λ d. refl; transitive = λ d e f p q. q ∙ p }

pub SameJobs-JobsEvolve : {m : ℕ} {d d' : Disk} → SameJobs d d' → JobsEvolve m d d'
SameJobs-JobsEvolve {m} {d} p = record {
  at = λ n. subst (λ jobs. Evolves m (lookup n d.jobs) (lookup n jobs)) (sym p) here;
}

-- The jobs and the idempotency records are left alone.
pub record SameFiles (d d' : Disk) : Type 0 where
  pub same_jobs : d'.jobs ≡ d.jobs
  pub same_idempotency : d'.idempotency ≡ d.idempotency

pub SameFiles-preorder : IsPreorder SameFiles
SameFiles-preorder = record {
  reflexive = λ d. record { same_jobs = refl; same_idempotency = refl };
  transitive = λ d e f p q. record {
    same_jobs = q.same_jobs ∙ p.same_jobs;
    same_idempotency = q.same_idempotency ∙ p.same_idempotency;
  };
}

pub io-SameFiles : Moves SameFiles io
unfolding io
io-SameFiles = record {
  at = λ d. record { same_jobs = ground arith; same_idempotency = ground arith };
}

pub io-SameJobs : Moves SameJobs io
io-SameJobs = record { at = λ d. (io-SameFiles.at d).same_jobs }

read_last-SameFiles : Moves SameFiles read_last
unfolding read_last
read_last-SameFiles = Moves-bind SameFiles-preorder io _ io-SameFiles λ _.
    Moves-bind SameFiles-preorder io _ io-SameFiles
      (λ _. record { at = SameFiles-preorder.reflexive })

tear_line-SameFiles : (l : AuditLine) → Moves SameFiles (tear_line l)
unfolding tear_line
tear_line-SameFiles l = record { at = λ d. go d d.tears }
  where
    go : (d : Disk) (tears : List Tear) → SameFiles d (tear_line l (record d { tears = tears })).1
    go d [] = record { same_jobs = refl; same_idempotency = refl }
    go d (nothing ∷ rest) = record { same_jobs = refl; same_idempotency = refl }
    go d (part ∷ rest) = record { same_jobs = refl; same_idempotency = refl }
    go d (unterminated ∷ rest) = record { same_jobs = refl; same_idempotency = refl }

append_line-SameFiles :
    (codec : AuditCodec) (e : AuditEvent) (h : Option String)
    → Moves SameFiles (append_line codec e h)
unfolding append_line
append_line-SameFiles codec e none = Moves-fail SameFiles-preorder _
append_line-SameFiles codec e (some h) = Moves-bind SameFiles-preorder io _ io-SameFiles λ _.
    Moves-bind SameFiles-preorder _ _
      (record {
        at = λ d.
            Moves-attempt_at SameFiles-preorder io _ _ d (io-SameFiles.at d)
              (λ x _. (tear_line-SameFiles _).at _)
              (λ a _. record { same_jobs = refl; same_idempotency = refl });
      })
      (λ _. Moves-bind SameFiles-preorder io _ io-SameFiles (λ _. io-SameFiles))

pub append_audit-SameFiles :
    (codec : AuditCodec) (now : ℕ) (actor action entity_type entity_id request_id : String)
    (details : List (String × Detail))
    → Moves SameFiles (append_audit codec now actor action entity_type entity_id request_id details)
unfolding append_audit
append_audit-SameFiles codec now actor action entity_type entity_id request_id details =
    Moves-bind SameFiles-preorder io _ io-SameFiles λ _.
      Moves-bind SameFiles-preorder read_last _ read_last-SameFiles (λ last.
        append_line-SameFiles codec
          (next_event now actor action entity_type entity_id request_id details last) _)

pub append_audit-SameJobs :
    (codec : AuditCodec) (now : ℕ) (actor action entity_type entity_id request_id : String)
    (details : List (String × Detail))
    → Moves SameJobs (append_audit codec now actor action entity_type entity_id request_id details)
append_audit-SameJobs codec now actor action entity_type entity_id request_id details = record {
  at = λ d.
      ((append_audit-SameFiles codec now actor action entity_type entity_id request_id details).at
        d).same_jobs;
}

pub read_job-SameJobs : (name : String) → Moves SameJobs (read_job name)
unfolding read_job
read_job-SameJobs name =
    Moves-bind SameJobs-preorder io _ io-SameJobs (λ _. record { at = λ d. ground arith })

pub read_job-ok :
    (name : String) (d : Disk) {job : Job}
    → (read_job name d).0 ≡ ok job
    → lookup name d.jobs ≡ some job
unfolding read_job io
read_job-ok name d h = ground arith

pub job_names-SameJobs : Moves SameJobs job_names
unfolding job_names
job_names-SameJobs = record {
  at = λ d.
      Moves-attempt_at SameJobs-preorder io _ _ d (io-SameJobs.at d) (λ e _. refl) (λ a _. refl);
}

-- What a write leaves at each name, if it succeeds; if it fails nothing changes.
pub write_job-jobs :
    (name : String) (job : Job) (d : Disk)
    → ((write_job name job d).1.jobs ≡ d.jobs)
      ⊎ ((write_job name job d).1.jobs ≡ insert name job d.jobs)
unfolding write_job io
write_job-jobs name job d = ground arith

module _ {m : ℕ} where
  -- A write after a read of the same file is one step of it.
  pub write_job-Evolves :
      (name : String) (job job' : Job) (d : Disk)
      → lookup name d.jobs ≡ some job
      → Transition m job job'
      → JobsEvolve m d (write_job name job' d).1
  write_job-Evolves name job job' d found t = elim (write_job-jobs name job' d) [
    | inl same ↦ SameJobs-JobsEvolve same
    | inr written ↦ record {
      at = λ n.
          rw (written, lookup-insert name n job' d.jobs)
            (elim (Bool-cases (str_eq name n)) [
              | inl e ↦
                  rw e (let eq : name ≡ n = (eq_iff name n).0 e in step (rw (← eq, found) here) t)
              | inr e ↦ rw e here
            ]);
    }
  ]

  pub Evolves-if :
      {A : Type 0} (b : Bool) (f g : Io A) (d : Disk)
      → (b ≡ true → JobsEvolve m d (f d).1)
      → (b ≡ false → JobsEvolve m d (g d).1)
      → JobsEvolve m d ((if b then f else g) d).1
  Evolves-if true f g d hf hg = hf refl
  Evolves-if false f g d hf hg = hg refl

  -- The rule for `job ← read_job name; f job`: the rest starts where the file has that content.
  pub read_job-bind :
      {A : Type 0} (name : String) (f : Job → Io A) (d : Disk)
      → ((job : Job) (e : Disk) → lookup name e.jobs ≡ some job → JobsEvolve m e (f job e).1)
      → JobsEvolve m d ((read_job name >>= f) d).1
  read_job-bind name f d h =
      let same : (read_job name d).1.jobs ≡ d.jobs = (read_job-SameJobs name).at d in
      Moves-bind_at (JobsEvolve-preorder m) (read_job name) f d (SameJobs-JobsEvolve same)
        λ job r. h job _ (rw same (read_job-ok name d r))

  -- A write of a file that has been read, and what follows it and leaves the jobs alone.
  pub write_job-then :
      {A : Type 0} (name : String) (job job' : Job) (f : Unit {0} → Io A) (d : Disk)
      → lookup name d.jobs ≡ some job
      → Transition m job job'
      → ((u : Unit {0}) (e : Disk) → JobsEvolve m e (f u e).1)
      → JobsEvolve m d ((write_job name job' >>= f) d).1
  write_job-then name job job' f d found t h =
      Moves-bind_at (JobsEvolve-preorder m) (write_job name job') f d
        (write_job-Evolves name job job' d found t) (λ u _. h u _)
