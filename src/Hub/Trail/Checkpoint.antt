-- ===== src/Hub/Trail/Checkpoint.antt =====
-- `OpenAudit`, `loadAndVerify` and `VerifyAudit` of internal/hub/audit.go, with every call of the
-- system that may fail.
use worldbisect.Prelude.{
  ℕ, ◌+◌, ◌*◌, String, Bool, true, false, Option, none, some, List, [], ◌∷◌, ◌||◌, ◌&&◌, not, ltb,
  leb, ◌==◌, str_eq, if◌then◌else◌, length,
}
use worldbisect.Prelude.Exec.{Result, ok, err, pure, fail, attempt, ◌>>=◌, ◌>>◌}
use worldbisect.Hub.Trail.{
  Entry, Segment, State, Line, entry, malformed, SegmentFile, Stray, temporary, unexpected,
  Directory, TrailError, integrity, io_failed, AuditLog, Trail, valid_event, segment_bytes, find,
  remove, io, hash_entry, write_checkpoint,
}

abbrev pub has_number : ℕ → List ℕ → Bool
has_number n [] = false
has_number n (m ∷ rest) = m == n || has_number n rest

module _ (digest : Entry → String) (encoded : Entry → ℕ) (is_digest : String → Bool) where
  -- An entry in its place. The scanner takes no line above 4096 bytes.
  abbrev pub follows : ℕ → String → Entry → Bool
  follows sequence previous e =
      leb (encoded e) 4096
      && e.sequence == sequence + 1
      && str_eq e.previous previous
      && not (e.time == 0)
      && str_eq e.hash (hash_entry digest encoded e)
      && valid_event e.event

  -- The loop over the lines of a segment, from what came before to its end.
  unfoldable pub check_lines : List Line → ℕ → String → Option (ℕ × String)
  unfolding valid_event
  check_lines [] sequence previous = some (sequence, previous)
  check_lines (malformed ∷ rest) sequence previous = none
  check_lines (entry e ∷ rest) sequence previous =
      let tail = check_lines rest e.sequence e.hash in
      if follows sequence previous e then tail else none

  abbrev pub ends_at : Segment → Option (ℕ × String) → Bool
  ends_at s none = false
  ends_at s (some (sequence, hash)) = sequence == s.last_sequence && str_eq hash s.last_hash

  abbrev pub is_empty : List Line → Bool
  is_empty [] = true
  is_empty (x ∷ xs) = false

  -- `auditFile` of a segment, its end, its lines, and the checkpoint's word on it.
  abbrev pub sound_file : Segment → ℕ → String → Option SegmentFile → Bool
  sound_file s sequence previous none = false
  sound_file s sequence previous (some f) =
      f.is_private
      && leb f.size segment_bytes
      && f.is_whole
      && not (is_empty f.lines)
      && ends_at s (check_lines f.lines sequence previous)

  -- The tests on the name and the date of a segment; `seen` are the names before.
  abbrev pub is_next : Segment → ℕ → List ℕ → Bool
  is_next s sequence seen =
      s.name == sequence + 1 && not (has_number s.name seen) && not (s.created_at == 0)

  -- The loop over the segments of the checkpoint. `auditFile` is three calls, and what the first says
  -- of the file is tested with the rest.
  unfoldable pub visit_segments : List Segment → ℕ → String → List ℕ → Trail (ℕ × String)
  unfolding check_lines find io
  visit_segments [] sequence previous seen = pure (sequence, previous)
  visit_segments (s ∷ rest) sequence previous seen =
      if not (is_next s sequence seen) then fail integrity else do
        io
        io
        io
        λ a.
            if not (sound_file s sequence previous (find s.name a.directory.segments))
            then (err integrity, a)
            else visit_segments rest s.last_sequence s.last_hash (s.name ∷ seen) a

  abbrev pub valid_hash : ℕ → String → Bool
  valid_hash sequence hash = if sequence == 0 then str_eq hash "" else is_digest hash

  -- The tests of the checkpoint before the segments.
  abbrev pub valid_state : State → Bool
  valid_state s =
      s.version == 1
      && leb (length s.segments) 16
      && leb s.anchor_sequence s.head_sequence
      && valid_hash s.anchor_sequence s.anchor_hash
      && valid_hash s.head_sequence s.head_hash

  abbrev pub reaches_head : State → ℕ × String → Bool
  reaches_head s (sequence, hash) = sequence == s.head_sequence && str_eq hash s.head_hash

  abbrev pub names_of : List Segment → List ℕ
  names_of [] = []
  names_of (s ∷ rest) = s.name ∷ names_of rest

  -- A segment file that the checkpoint does not name: it is removed if it has been pruned.
  unfoldable pub clean_files : State → List (ℕ × SegmentFile) → Trail (Unit {0})
  unfolding io remove
  clean_files s [] = pure tt
  clean_files s ((name, f) ∷ rest) =
      if has_number name (names_of s.segments)
      then clean_files s rest
      else if ltb s.anchor_sequence name
      then fail integrity
      else do
        io
        io
        (λ a. (
          ok tt,
          record a {
            directory = record a.directory { segments = remove name a.directory.segments };
          },
        ))
        clean_files s rest

  unfoldable pub clean_strays : List Stray → Trail (Unit {0})
  unfolding io
  clean_strays [] = λ a. (ok tt, record a { directory = record a.directory { strays = [] } })
  clean_strays (unexpected ∷ rest) = fail integrity
  clean_strays (temporary ∷ rest) = do io; io; clean_strays rest

  -- `boundedEntries` and the loop over the directory, which has state.json and the lock beside the rest.
  unfoldable pub clean_directory : State → Trail (Unit {0})
  unfolding clean_files clean_strays io
  clean_directory s = do
    io
    io
    λ a.
        if ltb 40 (length a.directory.segments + length a.directory.strays + 2)
        then (err integrity, a)
        else (do clean_files s a.directory.segments; clean_strays a.directory.strays) a

  -- The rest of `loadAndVerify` for a checkpoint that decodes.
  unfoldable pub adopt : State → Trail (Unit {0})
  unfolding visit_segments clean_directory
  adopt s = if not (valid_state s) then fail integrity else do
    reached ← visit_segments s.segments s.anchor_sequence s.anchor_hash []
    if not (reaches_head s reached)
        then fail integrity
        else do clean_directory s; λ a. (ok tt, record a { state = s })

  -- What state.json decodes to.
  unfoldable pub decoded : Option (Option State) → Trail State
  decoded none = fail io_failed
  decoded (some none) = fail integrity
  decoded (some (some s)) = pure s

  unfoldable pub load_and_verify : Trail (Unit {0})
  unfolding adopt decoded io
  load_and_verify = do io; io; io; c ← (λ a. (ok a.directory.checkpoint, a)); s ← decoded c; adopt s

  abbrev pub first_state : State
  first_state = record {
    version = 1;
    anchor_sequence = 0;
    anchor_hash = "";
    head_sequence = 0;
    head_hash = "";
    segments = [];
  }

  -- The first opening lists the directory and writes a checkpoint, if there is nothing else.
  unfoldable pub begin_log : Option (Option State) → Trail (Unit {0})
  unfolding write_checkpoint io
  begin_log (some c) = pure tt
  begin_log none = do
    io
    io
    λ a.
        if ltb 0 (length a.directory.segments + length a.directory.strays)
        then (err integrity, a)
        else write_checkpoint first_state a

  -- `os.Lstat` of state.json. Its error is looked at only for a file that is not there.
  unfoldable pub begin_if_new : Trail (Unit {0})
  unfolding begin_log io
  begin_if_new = attempt io (λ _. pure tt) (λ _ a. begin_log a.directory.checkpoint a)

  abbrev pub days : ℕ → ℕ
  days n = n * 24 * 3600 * 1000000000

  -- `privateDir` makes the directory and looks at it, and `acquireLock` opens, looks at and locks a
  -- file. What they refuse is a call that fails.
  unfoldable pub take_directory : Trail (Unit {0})
  unfolding io
  take_directory = do io; io; io; io; io

  -- `OpenAudit`, and the directory it leaves. The log is there without an error only.
  unfoldable pub open_audit : ℕ → Directory → Result TrailError (Unit {0}) × AuditLog
  unfolding take_directory begin_if_new load_and_verify
  open_audit retention_days directory =
      let n = if retention_days == 0 then 7 else retention_days in
      let a : AuditLog = record {
        state = first_state;
        retention = days n;
        is_closed = false;
        fault = false;
        directory = directory;
      } in
      if ltb n 1 || ltb 30 n
      then (err integrity, a)
      else (do take_directory; begin_if_new; load_and_verify) a

abbrev pub close_log : Trail (Unit {0})
close_log a = (ok tt, record a { is_closed = true })

-- `SetRetention`
abbrev pub set_retention : ℕ → AuditLog → AuditLog
set_retention n a = record a { retention = (if n == 0 then 7 else n) * 24 * 3600 * 1000000000 }

pub record Status : Type 0 where
  pub sequence : ℕ
  pub head_hash : String
  pub retained_segments : ℕ
  pub anchor_sequence : ℕ
  pub anchor_hash : String

abbrev pub status : AuditLog → Status
status a = record {
  sequence = a.state.head_sequence;
  head_hash = a.state.head_hash;
  retained_segments = length a.state.segments;
  anchor_sequence = a.state.anchor_sequence;
  anchor_hash = a.state.anchor_hash;
}

-- The end of `VerifyAudit`.
abbrev judge_head :
    String → Result TrailError (Unit {0}) × AuditLog → Option Status × Option TrailError
judge_head expected (err e, a) = (none, some e)
judge_head expected (ok u, a) = (
  some (status a),
  (if not (str_eq expected "") && not (str_eq a.state.head_hash expected)
      then some integrity
      else none),
)

-- `VerifyAudit` of a stopped log, and a head that was exported before. It first looks for state.json.
unfoldable pub verify_directory :
    (Entry → String)
    → (Entry → ℕ)
    → (String → Bool)
    → String
    → Directory
    → Option Status × Option TrailError
unfolding open_audit
verify_directory digest encoded is_digest expected d = elim d.faults [
  | true ∷ rest ↦ (none, some io_failed)
  | false ∷ rest ↦ verified (record d { faults = rest })
  | [] ↦ verified d
]
  where
    verified : Directory → Option Status × Option TrailError
    verified d = elim d.checkpoint [
      | none ↦ (none, some io_failed)
      | some c ↦ judge_head expected (open_audit digest encoded is_digest 7 d)
    ]
