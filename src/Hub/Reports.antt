-- ===== src/Hub/Reports.antt =====
-- internal/hub/store.go: the reports of one workspace, in its directory. `encoded` is the length of a
-- report's JSON. Times are nanoseconds from Go's zero time; each reading of the clock takes the next
-- of `clock`. Each call of the system may fail, as `faults` says.
pub mod Shelf
pub mod Loads
pub mod Writes
pub mod Requests
pub mod Newest
use Prim.Native.Nat.{Ordering}
use Prim.Native.String.{◌++◌ as append, compare}
use text.Mathlib.Text.{starts_with}
use worldbisect.Prelude.{
  ℕ, suc, ◌+◌, ◌*◌, String, Bool, true, false, Option, none, some, List, [], ◌∷◌, ◌||◌, not, ltb,
  leb, ◌==◌, str_eq, if◌then◌else◌, length, take,
}
use worldbisect.Prelude.Exec.{ok, err, Exec, pure, fail, attempt, ◌>>=◌, ◌>>◌}
use worldbisect.Prelude.Files.{Files, insert, erase}
use worldbisect.Hub.Trail.{is_expired}
use worldbisect.Hub.Submission.{
  Host, Submission, PublisherIdentity, id_pattern, cut_suffix, valid_submission, valid_publisher,
}

pub record Report : Type 0 where
  pub id : String
  pub created_at : ℕ
  pub publisher : Option PublisherIdentity
  pub submission : Submission

-- A file of the directory: whether it is a regular file for its owner alone, its size, and what
-- `decodeStrict` reads from it.
pub record ReportFile : Type 0 where
  pub is_private : Bool
  pub size : ℕ
  pub content : Option Report

pub record Folder : Type 0 where
  pub is_private : Bool
  pub files : Files ReportFile
  pub clock : ℕ → ℕ
  pub faults : List Bool

pub data HubError : Type 0 where
  closed_store not_found quota invalid_report too_large io_failed corrupt too_many : HubError

abbrev pub Desk : Type 0 → Type 0
Desk A = Exec Folder HubError A

abbrev pub minute : ℕ
minute = 60 * 1000000000

-- One call of the operating system that may fail.
unfoldable pub io : Desk (Unit {0})
io d = elim d.faults [
  | [] ↦ (ok tt, d)
  | true ∷ rest ↦ (err io_failed, record d { faults = rest })
  | false ∷ rest ↦ (ok tt, record d { faults = rest })
]

-- `s.now()`
abbrev pub read_clock : Desk ℕ
read_clock d = (ok (d.clock 0), record d { clock = λ n. d.clock (suc n) })

abbrev pub on_files : (Files ReportFile → Files ReportFile) → Desk (Unit {0})
on_files f d = (ok tt, record d { files = f d.files })

-- `os.Remove`
abbrev pub remove : String → Desk (Unit {0})
remove name = do io; on_files (erase name)

abbrev pub is_temporary : String → Bool
is_temporary name = starts_with name ".tmp-"

-- `privateDir` on a directory that is there.
unfoldable pub private_dir : Desk (Unit {0})
unfolding io
private_dir = do io; io; λ d. if d.is_private then (ok tt, d) else (err corrupt, d)

abbrev pub add : Option Report → List Report → List Report
add none reports = reports
add (some r) reports = r ∷ reports

-- `id + ".json"`
abbrev pub file_name : String → String
file_name id = append id ".json"

-- Newest first, and of the same time the greater identifier.
abbrev pub comes_before : Report → Report → Bool
comes_before a b =
    if a.created_at == b.created_at
    then elim (compare a.id b.id) [ Ordering.gt ↦ true | _ ↦ false ]
    else ltb b.created_at a.created_at

unfoldable pub insert_report : Report → List Report → List Report
insert_report r [] = r ∷ []
insert_report r (x ∷ xs) = if comes_before x r then x ∷ insert_report r xs else r ∷ x ∷ xs

-- `sort.Slice`
unfoldable pub sort_reports : List Report → List Report
unfolding insert_report
sort_reports [] = []
sort_reports (r ∷ rs) = insert_report r (sort_reports rs)

-- The loops of `Get` and `Delete`.
unfoldable pub find_report : String → List Report → Option Report
find_report id [] = none
find_report id (r ∷ rs) = if str_eq r.id id then some r else find_report id rs

module _ (host : Host) (encoded : Report → ℕ) (retention : ℕ) where
  -- What `load` makes of a file's content; `now` is the first reading of the clock in `load`.
  unfoldable pub load_report : ℕ → String → String → Report → Desk (Option Report)
  unfolding io erase
  load_report now name id r = do
    later ← read_clock
    if not (str_eq r.id id) || r.created_at == 0 || ltb (later + minute) r.created_at
        then fail corrupt
        else if not (valid_submission host r.submission)
        then fail corrupt
        else if not (valid_publisher host r.publisher r.submission)
        then fail corrupt
        else if is_expired retention now r.created_at
        then (do remove name; pure none)
        else pure (some r)

  -- The file with this identifier in its name is read.
  unfoldable pub read_report : ℕ → String → String → ReportFile → Desk (Option Report)
  unfolding io load_report
  read_report now name id f = do
    io
    io
    io
    if ltb 65536 f.size
        then fail corrupt
        else elim f.content [ none ↦ fail corrupt | some r ↦ load_report now name id r ]

  -- One turn of the loop of `load`.
  unfoldable pub load_file : ℕ → String → ReportFile → Desk (Option Report)
  unfolding io read_report cut_suffix erase
  load_file now name f = do
    io
    if not f.is_private
        then fail corrupt
        else if is_temporary name
        then (do remove name; pure none)
        else elim (cut_suffix ".json" name) [
          | none ↦ fail corrupt
          | some id ↦
              if not (host.matches id_pattern id) then fail corrupt else read_report now name id f
        ]

  unfoldable pub load_files : ℕ → Files ReportFile → Desk (List Report)
  unfolding load_file
  load_files now [] = pure []
  load_files now ((name, f) ∷ rest) = do
    r ← load_file now name f
    rs ← load_files now rest
    pure (add r rs)

  -- `load`
  unfoldable pub load : Desk (List Report)
  unfolding private_dir io load_files
  load = do
    private_dir
    io
    io
    entries ← (λ d. (ok d.files, d))
    if ltb 1016 (length entries) then fail too_many else do now ← read_clock; load_files now entries

  -- `List`
  unfoldable pub list_reports : Desk (List Report)
  unfolding load sort_reports
  list_reports = do reports ← load; pure (take 100 (sort_reports reports))

  -- `Get`
  unfoldable pub get_report : String → Desk Report
  unfolding load find_report
  get_report id = do
    reports ← load
    elim (find_report id reports) [ none ↦ fail not_found | some r ↦ pure r ]

  -- `Delete`. The directory is opened, synced and closed.
  unfoldable pub delete_report : String → Desk (Unit {0})
  unfolding load find_report io erase
  delete_report id = do
    reports ← load
    elim (find_report id reports) [
      | none ↦ fail not_found
      | some r ↦ do remove (file_name id); io; io
    ]

  -- The deferred removal of the temporary file; its error is ignored.
  unfoldable pub drop_temporary : String → Desk (Unit {0})
  unfolding io erase
  drop_temporary temporary = attempt (remove temporary) (λ _. pure tt) (λ _. pure tt)

  -- `atomicWrite`. `temporary` is the name that `os.CreateTemp` chooses.
  unfoldable pub atomic_write : String → String → ReportFile → Desk (Unit {0})
  unfolding io insert erase drop_temporary
  atomic_write temporary name f = do
    io
    on_files (insert temporary (record f { content = none }))
    attempt (do io; io; io; io) (λ e. do drop_temporary temporary; fail e)
        (λ _. do on_files (λ files. insert name f (erase temporary files)); io; io)

  -- `CreateVerified` after its checks. `random` is the new identifier.
  unfoldable pub create_report :
      ℕ → String → String → Submission → Option PublisherIdentity → Desk Report
  unfolding load io atomic_write
  create_report max_reports random temporary submission publisher = do
    reports ← load
    if leb max_reports (length reports) then fail quota else do
      io
      now ← read_clock
      let report : Report = record {
        id = random;
        created_at = now;
        publisher = publisher;
        submission = submission;
      }
      if ltb 65536 (encoded report) then fail too_large else do
        atomic_write temporary (file_name random)
            (record { is_private = true; size = encoded report; content = some report })
        pure report
