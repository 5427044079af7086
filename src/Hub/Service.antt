-- ===== src/Hub/Service.antt =====
-- internal/hub/store.go: the hub's data directory, with a directory for each workspace. `digest` is
-- SHA-256 in hexadecimal.
pub mod Isolation
pub mod Purge
use worldbisect.Prelude.{
  ℕ, suc, ◌+◌, String, Bool, true, false, ◌≡◌, refl, ◌∙◌, Option, none, some, List, [], ◌∷◌, ◌||◌,
  ◌&&◌, not, ltb, leb, str_eq, if◌then◌else◌, length, arith, Bool-cases, eq_iff,
}
use worldbisect.Prelude.Exec.{Result, ok, err, Exec, pure, fail, attempt, ◌>>=◌, ◌>>◌}
use worldbisect.Prelude.Files.{Files, lookup, insert}
use worldbisect.Prelude.Posts.{Post, Post-bind, Post-attempt, Post-if}
use worldbisect.Hub.Access.{Key, Membership, Config}
use worldbisect.Hub.Submission.{
  Host, Submission, PublisherIdentity, valid_submission, valid_publisher,
}
use worldbisect.Hub.Reports.{
  Report, ReportFile, Folder, HubError, closed_store, not_found, invalid_report, io_failed, corrupt,
  too_many, Desk, list_reports, get_report, delete_report, create_report,
}

-- An entry of the data directory: a file, private or not, with its size, or a directory, private or
-- not, with its files.
pub data RootEntry : Type 0 where
  plain : Bool → ℕ → RootEntry
  directory : Bool → Files ReportFile → RootEntry

pub record HubStore : Type 0 where
  pub config : Config
  pub is_closed : Bool
  pub root : Files RootEntry
  pub clock : ℕ → ℕ
  pub faults : List Bool

abbrev pub Hub : Type 0 → Type 0
Hub A = Exec HubStore HubError A

-- One call of the operating system that may fail.
unfoldable pub hub_io : Hub (Unit {0})
hub_io s = elim s.faults [
  | [] ↦ (ok tt, s)
  | true ∷ rest ↦ (err io_failed, record s { faults = rest })
  | false ∷ rest ↦ (ok tt, record s { faults = rest })
]

unfoldable pub has_key : String → List Key → Bool
has_key workspace [] = false
has_key workspace (key ∷ keys) = str_eq key.workspace workspace || has_key workspace keys

unfoldable pub has_member : String → List Membership → Bool
has_member workspace [] = false
has_member workspace (m ∷ ms) = str_eq m.workspace workspace || has_member workspace ms

abbrev pub is_allowed : Config → String → Bool
is_allowed config workspace =
    has_key workspace config.keys || has_member workspace config.memberships

unfoldable pub count_directories : Files RootEntry → ℕ
count_directories [] = 0
count_directories ((name, plain p n) ∷ rest) = count_directories rest
count_directories ((name, directory p files) ∷ rest) = suc (count_directories rest)

-- The limits on the entries of the data directory, before a directory is added.
unfoldable pub check_room : String → Hub (Unit {0})
unfolding hub_io lookup count_directories
check_room dir s = elim (lookup dir s.root) [
  | some e ↦ (ok tt, s)
  | none ↦
      (do
        hub_io
        hub_io
        λ t.
            if ltb 116 (length t.root)
            then (err too_many, t)
            else if leb 100 (count_directories t.root)
            then (err too_many, t)
            else (ok tt, t))
        s
]

-- `os.MkdirAll` of a directory below the root.
unfoldable pub make_directory : String → Hub (Unit {0})
unfolding lookup insert
make_directory dir s = elim (lookup dir s.root) [
  | none ↦ (ok tt, record s { root = insert dir (directory true []) s.root })
  | some e ↦ elim e [ plain p n ↦ (err io_failed, s) | directory p files ↦ (ok tt, s) ]
]

unfoldable pub check_private : String → Hub (Unit {0})
unfolding lookup
check_private dir s = elim (lookup dir s.root) [
  | none ↦ (err io_failed, s)
  | some e ↦ elim e [
    | plain p n ↦ (err corrupt, s)
    | directory p files ↦ if p then (ok tt, s) else (err corrupt, s)
  ]
]

-- What is done in the directory of a workspace.
unfoldable pub in_directory : {A : Type 0} → String → Desk A → Hub A
unfolding lookup insert
in_directory dir m s = elim (lookup dir s.root) [
  | none ↦ (err io_failed, s)
  | some e ↦ elim e [
    | plain p n ↦ (err io_failed, s)
    | directory p files ↦
        let r = m (record { is_private = p; files = files; clock = s.clock; faults = s.faults }) in
        (
          r.0,
          record s {
            root = insert dir (directory r.1.is_private r.1.files) s.root;
            clock = r.1.clock;
            faults = r.1.faults;
          },
        )
  ]
]

-- The rest of `workspaceDir`. An error of `os.Lstat` other than a missing entry passes for a directory
-- that is there.
unfoldable pub enter : String → Hub String
unfolding check_room make_directory check_private hub_io
enter dir = do
  attempt hub_io (λ _. pure tt) (λ _. check_room dir)
  hub_io
  make_directory dir
  hub_io
  check_private dir
  pure dir

module _ (digest : String → String) where
  -- `workspaceDir`
  unfoldable pub workspace_dir : String → Hub String
  unfolding has_key has_member enter
  workspace_dir workspace s =
      if s.is_closed
      then (err closed_store, s)
      else if not (is_allowed s.config workspace)
      then (err not_found, s)
      else enter (digest workspace) s

  -- What is done in the directory of a workspace, once that is there.
  unfoldable pub on_workspace : {A : Type 0} → String → Desk A → Hub A
  unfolding workspace_dir in_directory
  on_workspace workspace m = do dir ← workspace_dir workspace; in_directory dir m

  module _ (host : Host) (encoded : Report → ℕ) (retention : ℕ) where
    -- `List`
    unfoldable pub list_workspace : String → Hub (List Report)
    unfolding on_workspace list_reports
    list_workspace workspace = on_workspace workspace (list_reports host encoded retention)

    -- `Get`
    unfoldable pub get_from : String → String → Hub Report
    unfolding on_workspace get_report
    get_from workspace id = on_workspace workspace (get_report host encoded retention id)

    -- `Delete`
    unfoldable pub delete_from : String → String → Hub (Unit {0})
    unfolding on_workspace delete_report
    delete_from workspace id = on_workspace workspace (delete_report host encoded retention id)

    -- `CreateVerified`
    unfoldable pub create_verified :
        String → String → String → Submission → Option PublisherIdentity → Hub Report
    unfolding on_workspace create_report valid_submission valid_publisher
    create_verified workspace random temporary submission publisher s =
        if not (valid_submission host submission)
        then (err invalid_report, s)
        else if not (valid_publisher host publisher submission)
        then (err invalid_report, s)
        else on_workspace workspace
            (create_report host encoded retention s.config.max_reports_per_workspace random
              temporary submission publisher)
            s
