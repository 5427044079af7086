-- ===== src/Hub/Service/Purge.antt =====
-- internal/hub/store.go: `PurgeExpired` and `Close`. `is_digest` stands for a text that decodes to 32
-- bytes and encodes back to itself.
use text.Mathlib.Text.{starts_with}
use worldbisect.Prelude.{
  ℕ, ◌*◌, String, Bool, true, none, some, [], ◌∷◌, ◌||◌, not, ltb, ◌==◌, str_eq, if◌then◌else◌,
  length,
}
use worldbisect.Prelude.Exec.{ok, err, pure, fail, attempt, ◌>>=◌, ◌>>◌}
use worldbisect.Prelude.Files.{Files, lookup, erase}
use worldbisect.Hub.Submission.{Host}
use worldbisect.Hub.Reports.{Report, closed_store, io_failed, corrupt, too_many, load}
use worldbisect.Hub.Service.{RootEntry, plain, directory, Hub, hub_io, in_directory}

-- `Close`
unfoldable pub close_store : Hub (Unit {0})
unfolding hub_io
close_store s = if s.is_closed then (ok tt, s) else hub_io (record s { is_closed = true })

abbrev replay_filename : String
replay_filename = ".ci-replays.json"

abbrev erase_entry : String → Hub (Unit {0})
erase_entry name s = (ok tt, record s { root = erase name s.root })

-- `os.Remove` of a directory, which fails where it is not empty.
unfoldable pub remove_directory : String → Hub (Unit {0})
unfolding lookup erase
remove_directory name s = elim (lookup name s.root) [
  | none ↦ (err io_failed, s)
  | some e ↦ elim e [
    | plain p n ↦ (err io_failed, s)
    | directory p files ↦ elim files [ [] ↦ erase_entry name s | f ∷ rest ↦ (err io_failed, s) ]
  ]
]

-- What the loop does with the ledger of replays.
unfoldable pub check_ledger : RootEntry → Hub (Unit {0})
unfolding hub_io
check_ledger (directory p files) = fail corrupt
check_ledger (plain p size) =
    attempt hub_io (λ _. fail corrupt)
      (λ _. if not p || ltb (256 * 1024) size then fail corrupt else pure tt)

-- What the loop does with a file of an interrupted write.
unfoldable pub purge_temporary : String → RootEntry → Hub (Unit {0})
unfolding hub_io erase
purge_temporary name (directory p files) = fail corrupt
purge_temporary name (plain p size) =
    attempt hub_io (λ _. fail corrupt)
      (λ _. if p then (do hub_io; erase_entry name) else fail corrupt)

module _ (is_digest : String → Bool) (host : Host) (encoded : Report → ℕ) (retention : ℕ) where
  -- What the loop does with the directory of a workspace.
  unfoldable pub purge_directory : String → RootEntry → Hub (Unit {0})
  unfolding hub_io in_directory load remove_directory
  purge_directory name (plain p size) = fail corrupt
  purge_directory name (directory p files) = if not (is_digest name) then fail corrupt else do
    reports ← in_directory name (load host encoded retention)
    if length reports == 0 then (do hub_io; remove_directory name) else pure tt

  -- The loop of `PurgeExpired`.
  unfoldable pub purge_entries : Files RootEntry → Hub (Unit {0})
  unfolding check_ledger purge_temporary purge_directory
  purge_entries [] = pure tt
  purge_entries ((name, e) ∷ rest) = do
    (if str_eq name ".hub.lock"
        then pure tt
        else if str_eq name replay_filename
        then check_ledger e
        else if starts_with name ".tmp-"
        then purge_temporary name e
        else purge_directory name e)
    purge_entries rest

  -- `PurgeExpired`
  unfoldable pub purge_workspaces : Hub (Unit {0})
  unfolding hub_io purge_entries
  purge_workspaces s =
      if s.is_closed
      then (err closed_store, s)
      else (do
        hub_io
        hub_io
        λ t. if ltb 116 (length t.root) then (err too_many, t) else purge_entries t.root t)
          s
