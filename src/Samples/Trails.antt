-- ===== src/Samples/Trails.antt =====
-- A hub audit log (internal/hub/audit.go) that takes an entry, is purged a month later and opened.
use worldbisect.Prelude.{List, ◌∷◌, ℕ, String, ◌≡◌, refl, Bool, true, false, some, [], arith}
use worldbisect.Prelude.Exec.{ok, err}
use worldbisect.Hub.Trail.{
  AuditEvent, Entry, AuditLog, Directory, io_failed, append, purge_expired, next_entry, find,
  replace, remove, last_segment, advance, prune_segments, pruned, io, latch, remove_files,
  write_checkpoint, commit, open_segment, write_line, starts_segment, store_entry, valid_event,
  byte_length, has_break,
}
use worldbisect.Hub.Trail.Checkpoint.{
  first_state, open_audit, take_directory, begin_if_new, begin_log, load_and_verify, decoded, adopt,
  visit_segments, check_lines, clean_directory, clean_files, clean_strays,
}
use worldbisect.Hub.Trail.Intact.{IsIntact, HasHead}
use worldbisect.Hub.Trail.Appends.{Answers, append-Answers, purge_expired-Answers}
use worldbisect.Hub.Trail.Reload.{IsOpened, open_audit-IsIntact}

unfoldable digest : Entry → String
digest e = "d1"

unfoldable encoded : Entry → ℕ
encoded e = 300

unfoldable is_digest : String → Bool
is_digest s = true

looks_like_digest : (e : Entry) → is_digest (digest e) ≡ true
unfolding is_digest
looks_like_digest e = refl

abbrev new_log : AuditLog
new_log = record {
  state = first_state digest encoded is_digest;
  retention = 100;
  is_closed = false;
  fault = false;
  directory = record {
    checkpoint = some (some (first_state digest encoded is_digest));
    segments = [];
    strays = [];
    faults = [];
  };
}

new_log-IsIntact : IsIntact digest encoded is_digest new_log
unfolding find is_digest
new_log-IsIntact = record {
  committed = refl;
  valid = refl;
  chain = (refl, refl);
  explained = λ n f h. cc;
  tidy = refl;
}

abbrev sign_in : AuditEvent
sign_in = record {
  actor = "alice";
  kind = "token";
  workspace = "w";
  credential_id = "c1";
  action = "report.create";
  outcome = "ok";
  report_id = "";
}

abbrev appended : AuditLog
appended = (append digest encoded sign_in 5 6 7 new_log).1

append-Answers_example :
    Answers
      (HasHead digest encoded is_digest 1 (next_entry digest encoded sign_in 5 new_log.state).hash)
      new_log
      (append digest encoded sign_in 5 6 7 new_log)
append-Answers_example =
    append-Answers digest encoded is_digest looks_like_digest sign_in 5 6 7 new_log new_log-IsIntact
      (omega arith)

append_is_answered :
    Answers
      (HasHead digest encoded is_digest 1 (next_entry digest encoded sign_in 5 new_log.state).hash)
      new_log
      (append digest encoded sign_in 5 6 7 new_log)
append_is_answered =
    append-Answers digest encoded is_digest looks_like_digest sign_in 5 6 7 new_log new_log-IsIntact
      (omega arith)

appended-IsIntact : IsIntact digest encoded is_digest appended
unfolding append find replace remove last_segment advance prune_segments pruned io latch
    remove_files write_checkpoint commit open_segment write_line starts_segment store_entry
    valid_event byte_length has_break digest encoded is_digest
appended-IsIntact = append_is_answered.0

purge_expired-Answers_example :
    Answers (HasHead digest encoded is_digest 1 "d1") appended (purge_expired 200 appended)
unfolding append find replace remove last_segment advance prune_segments pruned io latch
    remove_files write_checkpoint commit open_segment write_line starts_segment store_entry
    valid_event byte_length has_break digest encoded is_digest
purge_expired-Answers_example =
    purge_expired-Answers digest encoded is_digest looks_like_digest 200 appended appended-IsIntact

open_audit-IsIntact_example :
    IsOpened digest encoded is_digest appended
      (open_audit digest encoded is_digest 30 appended.directory)
unfolding append find replace remove last_segment advance prune_segments pruned io latch
    remove_files write_checkpoint commit open_segment write_line starts_segment store_entry
    valid_event byte_length has_break digest encoded is_digest
open_audit-IsIntact_example =
    open_audit-IsIntact digest encoded is_digest 30 appended appended-IsIntact (omega arith)
      (omega arith)

-- The directory of `appended`, where these calls fail.
abbrev failing : List Bool → Directory
failing faults = record appended.directory { faults = faults }

-- The lock is held by another process.
locked_log :
    (open_audit digest encoded is_digest 30 (failing (false ∷ false ∷ false ∷ false ∷ true ∷ []))).0
    ≡ err io_failed
unfolding append find replace remove last_segment advance prune_segments pruned io latch
    remove_files write_checkpoint commit open_segment write_line starts_segment store_entry
    valid_event byte_length has_break digest encoded is_digest open_audit take_directory
    begin_if_new begin_log load_and_verify decoded adopt visit_segments check_lines clean_directory
    clean_files clean_strays
locked_log = refl

-- A look at state.json that fails is no error by itself.
overlooked_log :
    (open_audit digest encoded is_digest 30
      (failing (false ∷ false ∷ false ∷ false ∷ false ∷ true ∷ []))).0
    ≡ ok tt
unfolding append find replace remove last_segment advance prune_segments pruned io latch
    remove_files write_checkpoint commit open_segment write_line starts_segment store_entry
    valid_event byte_length has_break digest encoded is_digest open_audit take_directory
    begin_if_new begin_log load_and_verify decoded adopt visit_segments check_lines clean_directory
    clean_files clean_strays
overlooked_log = refl

-- The segment file cannot be read.
unread_log :
    (open_audit digest encoded is_digest 30 (
      failing (false ∷ false ∷ false ∷ false ∷ false ∷ true ∷ false ∷ false ∷ false ∷ true ∷ []))).0
    ≡ err io_failed
unfolding append find replace remove last_segment advance prune_segments pruned io latch
    remove_files write_checkpoint commit open_segment write_line starts_segment store_entry
    valid_event byte_length has_break digest encoded is_digest open_audit take_directory
    begin_if_new begin_log load_and_verify decoded adopt visit_segments check_lines clean_directory
    clean_files clean_strays
unread_log = refl
