-- ===== src/Hub/Trail.antt =====
-- internal/hub/audit.go: the hub's audit log, a chain of hashes in segment files with a committed
-- checkpoint. `digest` stands for SHA-256 in hexadecimal of an entry's JSON, `is_digest` for a text
-- that decodes to 32 bytes and encodes back to itself, and `encoded` for the length of an entry's line.
-- A segment file is known by the number in its name. Times are counted from Go's zero time.
pub mod Checkpoint
pub mod Chain
pub mod Growth
pub mod Pruning
pub mod Calls
pub mod Intact
pub mod Appends
pub mod Reload
use Prim.Native.Char.{code}
use worldbisect.Prelude.{
  ℕ, zero, suc, ◌+◌, ◌*◌, String, Bool, true, false, Option, none, some, List, [], ◌∷◌, ◌++◌, ◌||◌,
  ◌&&◌, not, ltb, leb, ◌==◌, str_eq, if◌then◌else◌, length,
}
use worldbisect.Prelude.Exec.{Result, ok, err, Exec, pure, fail, attempt, ◌>>=◌, ◌>>◌}

pub record AuditEvent : Type 0 where
  pub actor : String
  pub kind : String
  pub workspace : String
  pub credential_id : String
  pub action : String
  pub outcome : String
  pub report_id : String

pub record Entry : Type 0 where
  pub sequence : ℕ
  pub time : ℕ
  pub previous : String
  pub event : AuditEvent
  pub hash : String

pub record Segment : Type 0 where
  pub name : ℕ
  pub created_at : ℕ
  pub last_sequence : ℕ
  pub last_hash : String

-- The checkpoint.
pub record State : Type 0 where
  pub version : ℕ
  pub anchor_sequence : ℕ
  pub anchor_hash : String
  pub head_sequence : ℕ
  pub head_hash : String
  pub segments : List Segment

pub data Line : Type 0 where
  entry : Entry → Line
  malformed : Line

-- `is_private` is a regular file for its owner alone; `is_whole` is an end in a newline.
pub record SegmentFile : Type 0 where
  pub is_private : Bool
  pub size : ℕ
  pub lines : List Line
  pub is_whole : Bool

-- Another entry of the directory: a temporary file, or something that should not be there.
pub data Stray : Type 0 where
  temporary unexpected : Stray

-- The directory. `checkpoint` is state.json: no file, or what it decodes to, if it is a private file
-- within its limit.
pub record Directory : Type 0 where
  pub checkpoint : Option (Option State)
  pub segments : List (ℕ × SegmentFile)
  pub strays : List Stray
  pub faults : List Bool

pub data TrailError : Type 0 where
  closed_log latched invalid_event too_large io_failed integrity : TrailError

pub record AuditLog : Type 0 where
  pub state : State
  pub retention : ℕ
  pub is_closed : Bool
  pub fault : Bool
  pub directory : Directory

abbrev pub Trail : Type 0 → Type 0
Trail A = Exec AuditLog TrailError A

-- The bytes of a text in UTF-8.
abbrev byte_count : ℕ → ℕ
byte_count c = if ltb c 128 then 1 else if ltb c 2048 then 2 else if ltb c 65536 then 3 else 4

unfoldable pub byte_length : String → ℕ
byte_length String.[] = 0
byte_length (String.◌∷◌ c s) = byte_count (code c) + byte_length s

-- `strings.ContainsAny(value, "\n\r\x00")`
unfoldable pub has_break : String → Bool
has_break String.[] = false
has_break (String.◌∷◌ c s) = code c == 10 || code c == 13 || code c == 0 || has_break s

abbrev is_metadata : String → Bool
is_metadata value = not (ltb 128 (byte_length value) || has_break value)

-- `validateAuditEvent`
unfoldable pub valid_event : AuditEvent → Bool
unfolding byte_length has_break
valid_event e =
    is_metadata e.actor
    && is_metadata e.kind
    && is_metadata e.workspace
    && is_metadata e.credential_id
    && is_metadata e.action
    && is_metadata e.outcome
    && is_metadata e.report_id
    && not (str_eq e.actor "" || str_eq e.action "" || str_eq e.outcome "")

abbrev pub segment_bytes : ℕ
segment_bytes = 256 * 1024

abbrev pub max_segments : ℕ
max_segments = 16

module _ {V : Type 0} where
  -- The file with this number in its name.
  unfoldable pub find : ℕ → List (ℕ × V) → Option V
  find n [] = none
  find n ((k, v) ∷ rest) = if k == n then some v else find n rest

  -- `os.Remove`
  unfoldable pub remove : ℕ → List (ℕ × V) → List (ℕ × V)
  remove n [] = []
  remove n ((k, v) ∷ rest) = if k == n then remove n rest else (k, v) ∷ remove n rest

  -- The file is changed in place.
  unfoldable pub replace : ℕ → V → List (ℕ × V) → List (ℕ × V)
  replace n new [] = []
  replace n new ((k, v) ∷ rest) = if k == n then (k, new) ∷ rest else (k, v) ∷ replace n new rest

-- `segments[len(segments)-1]`
unfoldable pub last_segment : List Segment → Option Segment
last_segment [] = none
last_segment (s ∷ []) = some s
last_segment (s ∷ t ∷ rest) = last_segment (t ∷ rest)

-- The current segment gets the new end.
unfoldable pub advance : List Segment → ℕ → String → List Segment
advance [] sequence hash = []
advance (s ∷ []) sequence hash = record s { last_sequence = sequence; last_hash = hash } ∷ []
advance (s ∷ t ∷ rest) sequence hash = s ∷ advance (t ∷ rest) sequence hash

-- `!CreatedAt.After(now.Add(-retention))`
abbrev pub is_expired : ℕ → ℕ → ℕ → Bool
is_expired retention now created = not (ltb now (created + retention))

-- The loop of `pruned` over the segments, with the anchor: the new anchor, the segments that stay and
-- the names to remove.
unfoldable pub prune_segments :
    ℕ → ℕ → List Segment → ℕ → String → (ℕ × String) × List Segment × List ℕ
prune_segments retention now [] sequence hash = ((sequence, hash), [], [])
prune_segments retention now (s ∷ rest) sequence hash =
    let (anchor, kept, removed) = prune_segments retention now rest s.last_sequence s.last_hash in
    if ltb max_segments (length (s ∷ rest)) || is_expired retention now s.created_at
    then (anchor, kept, s.name ∷ removed)
    else ((sequence, hash), s ∷ rest, [])

unfoldable pub pruned : ℕ → ℕ → State → State × List ℕ
unfolding prune_segments
pruned retention now state =
    let ((sequence, hash), kept, removed) =
      prune_segments retention now state.segments state.anchor_sequence state.anchor_hash in
    (record state { anchor_sequence = sequence; anchor_hash = hash; segments = kept }, removed)

-- One call of the operating system that may fail.
unfoldable pub io : Trail (Unit {0})
io a = elim a.directory.faults [
  | [] ↦ (ok tt, a)
  | true ∷ rest ↦ (err io_failed, record a { directory = record a.directory { faults = rest } })
  | false ∷ rest ↦ (ok tt, record a { directory = record a.directory { faults = rest } })
]

abbrev pub on_files : (List (ℕ × SegmentFile) → List (ℕ × SegmentFile)) → Trail (Unit {0})
on_files f a =
    (ok tt, record a { directory = record a.directory { segments = f a.directory.segments } })

-- `a.fail(err)`
unfoldable pub latch : {A : Type 0} → TrailError → Trail A
latch e a = (err latched, record a { fault = true })

-- The removal of the pruned files; one that is not there is no error.
unfoldable pub remove_files : List ℕ → Trail (Unit {0})
unfolding io remove
remove_files [] = pure tt
remove_files (name ∷ rest) = do io; on_files (remove name); remove_files rest

-- `atomicWrite` of state.json: the rename, and then the directory is synced.
unfoldable pub write_checkpoint : State → Trail (Unit {0})
unfolding io
write_checkpoint state = do
  io
  (λ a. (ok tt, record a { directory = record a.directory { checkpoint = some (some state) } }))
  io

unfoldable pub commit : State → List ℕ → Trail (Unit {0})
unfolding write_checkpoint remove_files io
commit state removed = do
  write_checkpoint state
  (λ a. (ok tt, record a { state = state }))
  remove_files removed
  io

-- The first bytes of a line that was not written to its end.
abbrev pub torn : SegmentFile → SegmentFile
torn f = record f { size = f.size + 1; is_whole = false }

abbrev pub with_line : Entry → ℕ → SegmentFile → SegmentFile
with_line e bytes f = record f { size = f.size + bytes; lines = f.lines ++ entry e ∷ [] }

abbrev pub empty_segment : SegmentFile
empty_segment = record { is_private = true; size = 0; lines = []; is_whole = true }

-- `os.OpenFile` of the current segment, which is created or must be there.
unfoldable pub open_segment : Bool → ℕ → Trail SegmentFile
unfolding io find
open_segment true name = do
  io
  λ a. elim (find name a.directory.segments) [
    | some f ↦ (err io_failed, a)
    | none ↦ (
      ok empty_segment,
      record a {
        directory = record a.directory {
          segments = a.directory.segments ++ (name, empty_segment) ∷ [];
        };
      },
    )
  ]
open_segment false name = do
  io
  λ a. elim (find name a.directory.segments) [ none ↦ (err io_failed, a) | some f ↦ (ok f, a) ]

-- The line is written, synced and the file closed.
unfoldable pub write_line : ℕ → Entry → ℕ → SegmentFile → Trail (Unit {0})
unfolding io replace
write_line name e bytes f =
    attempt io (λ x. do on_files (replace name (torn f)); fail x)
      (λ _. do on_files (replace name (with_line e bytes f)); io)

module _ (digest : Entry → String) (encoded : Entry → ℕ) where
  -- `hashAuditEntry`
  abbrev pub hash_entry : Entry → String
  hash_entry e = digest (record e { hash = "" })

  abbrev pub next_entry : AuditEvent → ℕ → State → Entry
  next_entry event now state =
      let e : Entry = record {
        sequence = state.head_sequence + 1;
        time = now;
        previous = state.head_hash;
        event = event;
        hash = "";
      } in
      record e { hash = hash_entry e }

  -- Whether a line of this length starts a new segment. `now` is the second reading of the clock.
  unfoldable pub starts_segment : ℕ → ℕ → Option Segment → Trail Bool
  unfolding io find
  starts_segment now bytes none = pure true
  starts_segment now bytes (some s) = do
    io
    λ a. elim (find s.name a.directory.segments) [
      | none ↦ (err io_failed, a)
      | some f ↦ if not f.is_private then (err integrity, a) else (
        ok (ltb segment_bytes (f.size + bytes) || is_expired a.retention now s.created_at),
        a,
      )
    ]

  -- The segments with the current one at the end.
  abbrev pub with_current : Bool → Entry → List Segment → List Segment
  with_current fresh e segments =
      if fresh
      then segments
        ++ record { name = e.sequence; created_at = e.time; last_sequence = 0; last_hash = "" } ∷ []
      else segments

  abbrev pub current_name : List Segment → ℕ
  current_name segments = elim (last_segment segments) [ none ↦ 0 | some s ↦ s.name ]

  -- The part of `Append` that touches files, without the latch. `later` is the third reading of the
  -- clock.
  unfoldable pub store_entry : ℕ → ℕ → Entry → Trail (Unit {0})
  unfolding starts_segment open_segment write_line pruned commit advance last_segment
  store_entry now later e = do
    state ← (λ a. (ok a.state, a))
    fresh ← starts_segment now (encoded e) (last_segment state.segments)
    let segments = with_current fresh e state.segments
    f ← open_segment fresh (current_name segments)
    write_line (current_name segments) e (encoded e) f
    let next = record state {
      segments = advance segments e.sequence e.hash;
      head_sequence = e.sequence;
      head_hash = e.hash;
    }
    (λ a. let (kept, removed) = pruned a.retention later next in commit kept removed a)

  -- `Append`
  unfoldable pub append : AuditEvent → ℕ → ℕ → ℕ → Trail (Unit {0})
  unfolding store_entry latch valid_event
  append event now then_ later a =
      let e = next_entry event now a.state in
      if a.is_closed
      then (err closed_log, a)
      else if a.fault
      then (err latched, a)
      else if not (valid_event event)
      then (err invalid_event, a)
      else if ltb 4096 (encoded e)
      then (err too_large, a)
      else attempt (store_entry then_ later e) latch pure a

-- `PurgeExpired`
unfoldable pub purge_expired : ℕ → Trail (Unit {0})
unfolding pruned commit latch
purge_expired now a =
    let (next, removed) = pruned a.retention now a.state in
    if a.is_closed
    then (err closed_log, a)
    else if a.fault
    then (err latched, a)
    else elim removed [
      | [] ↦ (ok tt, a)
      | name ∷ rest ↦ attempt (commit next (name ∷ rest)) latch pure a
    ]
