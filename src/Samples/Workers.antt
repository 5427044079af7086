-- ===== src/Samples/Workers.antt =====
-- A worker of internal/jobs/manager.go whose job has been claimed by another worker meanwhile.
use worldbisect.Prelude.{◌≡◌, refl, ap, subst, true, Option, none, some, [], ◌∷◌, not, ◌||◌, str_eq}
use worldbisect.Prelude.Exec.{ok}
use worldbisect.Prelude.Files.{lookup}
use worldbisect.Model.{Job, running}
use worldbisect.Store.Disk.{event, Disk}
use worldbisect.Store.AuditLog.{AuditCodec}
use worldbisect.Store.JobFiles.{is_running}
use worldbisect.Jobs.{report}
use worldbisect.Jobs.Report.{NotOwned, report-NotOwned}

abbrev pub codec : AuditCodec
codec = record { digest = λ e. some e.action; line = λ e. event e }

abbrev pub taken_over : Job
taken_over = record {
  schema_version = 3;
  id = "j1";
  type = "analyze";
  state = running;
  payload = "";
  principal = "p";
  created_at = 1;
  updated_at = 9;
  lease_owner = "w2";
  lease_expires = 70;
  heartbeat_at = 9;
  attempts = 2;
  result_ref = "";
  error = "";
}

abbrev pub disk : Disk
disk = record {
  jobs = ("j1.json", taken_over) ∷ [];
  idempotency = [];
  audit = [];
  audit_whole = true;
  tears = [];
  cache = [];
  faults = [];
}

abbrev job_or : Job → Option Job → Job
job_or d none = d
job_or d (some j) = j

taken_over-NotOwned : NotOwned "j1" disk "w1"
unfolding lookup
taken_over-NotOwned job found =
    subst (λ (j : Job). (not (is_running j.state) || not (str_eq j.lease_owner "w1")) ≡ true)
      (ap (job_or taken_over) found) refl

report-NotOwned_example :
    ((report codec 12 "w1" taken_over (ok "r1") disk).jobs ≡ disk.jobs)
    × ((report codec 12 "w1" taken_over (ok "r1") disk).audit ≡ disk.audit)
report-NotOwned_example =
    report-NotOwned codec 12 "w1" taken_over (ok "r1") disk taken_over-NotOwned
