-- ===== src/Store/AuditLog.antt =====
-- internal/store/audit.go. Sequence numbers are uint64.
use worldbisect.Prelude.{
  ℕ, ◌+◌, ◌%◌, ◌^◌, String, Bool, true, false, Option, none, some, List, [], ◌∷◌, ◌++◌, ◌||◌, not,
  ◌==◌, str_eq, if◌then◌else◌,
}
use worldbisect.Prelude.Exec.{Result, ok, err, fail, attempt, ◌>>=◌, ◌>>◌}
use worldbisect.Model.{AuditEvent, AuditVerification, Detail}
use worldbisect.Store.Disk.{
  StoreError, io_error, decode_error, encode_error, line_too_long, AuditLine, event, malformed,
  oversized, Tear, nothing, part, unterminated, Disk, Io, io,
}

abbrev pub u64 : ℕ → ℕ
u64 n = n % 2 ^ 64

-- encoding/json and crypto/sha256 on events: SHA-256 of the event's JSON, where `none` is an event that
-- cannot be encoded, and what the line that is written for an event is read as.
pub record AuditCodec : Type 0 where
  pub digest : AuditEvent → Option String
  pub line : AuditEvent → AuditLine

unfoldable pub audit_hash : AuditCodec → AuditEvent → Option String
audit_hash codec e = codec.digest (record e { hash = "" })

-- The loop of `lastAudit`: hash and sequence of the last event.
unfoldable pub last_audit : List AuditLine → String × ℕ → Result StoreError (String × ℕ)
last_audit [] last = ok last
last_audit (malformed m ∷ lines) last = err decode_error
last_audit (oversized ∷ lines) last = err line_too_long
last_audit (event e ∷ lines) last = last_audit lines (e.hash, e.sequence)

unfoldable pub next_event :
    ℕ
    → String
    → String
    → String
    → String
    → String
    → List (String × Detail)
    → String × ℕ
    → AuditEvent
next_event now actor action entity_type entity_id request_id details last = record {
  version = 1;
  sequence = u64 (last.1 + 1);
  timestamp = now;
  actor = actor;
  action = action;
  entity_type = entity_type;
  entity_id = entity_id;
  request_id = request_id;
  details = details;
  previous_hash = last.0;
  hash = "";
}

-- The text goes on the last line, which does not decode then.
unfoldable pub spoil_last : List AuditLine → List AuditLine
spoil_last [] = malformed "" ∷ []
spoil_last (l ∷ []) = malformed "" ∷ []
spoil_last (l ∷ m ∷ lines) = l ∷ spoil_last (m ∷ lines)

-- The lines once a line's text is at the end of the file.
abbrev pub with_text : AuditLine → Bool → List AuditLine → List AuditLine
with_text l true lines = lines ++ l ∷ []
with_text l false lines = spoil_last lines

abbrev pub add_text : AuditLine → Bool → List Tear → Disk → Disk
add_text l whole rest d = record d {
  audit = with_text l d.audit_whole d.audit;
  audit_whole = whole;
  tears = rest;
}

-- A write that fails.
unfoldable pub tear_line : AuditLine → Io (Unit {0})
unfolding spoil_last
tear_line l d = (
  err io_error,
  (elim d.tears [
    | [] ↦ d
    | t ∷ rest ↦ elim t [
      | nothing ↦ record d { tears = rest }
      | part ↦ add_text (malformed "") false rest d
      | unterminated ↦ add_text l false rest d
    ]
  ]),
)

-- `os.OpenFile`, `Encode`, `Sync` and `Close` for the event with its hash.
unfoldable pub append_line : AuditCodec → AuditEvent → Option String → Io (Unit {0})
unfolding tear_line spoil_last
append_line codec e none = fail encode_error
append_line codec e (some h) = do
  io
  attempt io (λ _. tear_line (codec.line (record e { hash = h })))
      (λ _ d. (ok tt, add_text (codec.line (record e { hash = h })) true d.tears d))
  io
  io

-- `lastAudit`: the file is opened and read.
unfoldable pub read_last : Io (String × ℕ)
unfolding last_audit
read_last = do io; io; λ d. (last_audit d.audit ("", 0), d)

-- `appendAuditLocked`. The first call of the system makes the directory.
unfoldable pub append_audit :
    AuditCodec
    → ℕ
    → String
    → String
    → String
    → String
    → String
    → List (String × Detail)
    → Io (Unit {0})
unfolding read_last append_line next_event audit_hash
append_audit codec now actor action entity_type entity_id request_id details = do
  io
  last ← read_last
  let e = next_event now actor action entity_type entity_id request_id details last
  append_line codec e (audit_hash codec e)

abbrev pub invalid : ℕ → String → Result StoreError AuditVerification
invalid sequence message = ok (record { valid = false; entries = sequence; error = message })

-- The rest of a round of `VerifyAudit`, once the event's hash has been computed.
unfoldable pub check_hash :
    AuditEvent
    → ℕ
    → Option String
    → Result StoreError AuditVerification
    → Result StoreError AuditVerification
check_hash e sequence none rest = err encode_error
check_hash e sequence (some expected) rest =
    if str_eq expected e.hash then rest else invalid sequence "event hash mismatch"

-- The loop of `VerifyAudit`.
unfoldable pub verify_from :
    AuditCodec → List AuditLine → String → ℕ → Result StoreError AuditVerification
unfolding check_hash audit_hash
verify_from codec [] previous sequence =
    ok (record { valid = true; entries = sequence; error = "" })
verify_from codec (malformed m ∷ lines) previous sequence = invalid sequence m
verify_from codec (oversized ∷ lines) previous sequence = err line_too_long
verify_from codec (event e ∷ lines) previous sequence =
    let rest = verify_from codec lines e.hash e.sequence in
    if not (e.sequence == u64 (sequence + 1)) || not (str_eq e.previous_hash previous)
    then invalid sequence "sequence or previous hash mismatch"
    else check_hash e sequence (audit_hash codec e) rest

-- `VerifyAudit`: the file is opened and read.
unfoldable pub verify_audit : AuditCodec → Io AuditVerification
unfolding verify_from
verify_audit codec = do io; io; λ d. (verify_from codec d.audit "" 0, d)
