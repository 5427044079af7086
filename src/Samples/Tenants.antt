-- ===== src/Samples/Tenants.antt =====
-- A data directory with the directories of two workspaces, of which one is configured.
use worldbisect.Prelude.{ℕ, pos, String, refl, ◌≡◌, true, false, none, [], ◌∷◌}
use worldbisect.Prelude.Files.{erase}
use worldbisect.Prelude.Exec.{ok}
use worldbisect.Hub.Access.{Config, Key}
use worldbisect.Hub.Submission.{
  Host, Submission, has_control, valid_field, valid_submission, valid_publisher,
}
use worldbisect.Hub.Trail.{byte_length}
use worldbisect.Hub.Reports.{Report, io, private_dir, load_files, load, atomic_write, create_report}
use worldbisect.Hub.Service.{
  HubStore, plain, directory, hub_io, has_key, has_member, check_room, make_directory,
  check_private, enter, in_directory, workspace_dir, on_workspace, list_workspace, get_from,
  delete_from, create_verified,
}
use worldbisect.Hub.Service.Purge.{
  purge_workspaces, purge_entries, purge_directory, remove_directory,
}
use worldbisect.Hub.Service.Isolation.{Isolated, create_verified-Isolated}

abbrev host : Host
host = record {
  matches = λ pattern s. true;
  parse_url = λ s. none;
  is_valid_utf8 = λ s. true;
  trim_space = λ s. s;
  is_control = λ c. false;
}

abbrev digest : String → String
digest workspace = workspace

abbrev encoded : Report → ℕ
encoded r = 300

abbrev key : Key
key = record {
  id = "k1";
  subject_id = "";
  scopes = [];
  expires_at = none;
  token_sha256 = "ab";
  workspace = "team";
  permission = "write";
}

abbrev config : Config
config = record {
  subjects = [];
  memberships = [];
  ci_quarantine_until = none;
  ci_publishers = 0;
  audit_retention_days = pos 7;
  version = 1;
  retention_days = 7;
  max_reports_per_workspace = 2;
  keys = key ∷ [];
}

abbrev store : HubStore
store = record {
  config = config;
  is_closed = false;
  root =
      (".hub.lock", plain true 0) ∷ ("team", directory true []) ∷ ("other", directory true []) ∷ [];
  clock = λ n. 60;
  faults = [];
}

abbrev submission : Submission
submission = record {
  repository = "team/tool";
  check_name = "unit";
  commit_sha = "";
  run_url = "";
  status = "PROVEN";
  finding = "the locale";
  tested = "8 differences";
  next_step = "pin it";
  experiments = pos 12;
  analysis_id = "";
}

created :
    (create_verified digest host encoded 100 "team" "b2" ".tmp-3" submission none store).0
    ≡ ok record { id = "b2"; created_at = 60; publisher = none; submission = submission }
unfolding create_verified on_workspace workspace_dir enter check_room make_directory check_private
    hub_io in_directory create_report atomic_write load private_dir load_files io has_key has_member
    valid_submission valid_publisher valid_field has_control byte_length
created = refl

create_verified-Isolated_example :
    Isolated digest "team" "other" store (list_workspace digest host encoded 100 "team" store)
    × Isolated digest "team" "other" store (get_from digest host encoded 100 "team" "b2" store)
    × Isolated digest "team" "other" store (delete_from digest host encoded 100 "team" "b2" store)
    × Isolated digest "team" "other" store
        (create_verified digest host encoded 100 "team" "b2" ".tmp-3" submission none store)
create_verified-Isolated_example =
    create_verified-Isolated digest "team" host encoded 100 "b2" "b2" ".tmp-3" submission none
      "other" store refl

purged :
    (purge_workspaces (λ name. true) host encoded 100 store).1.root
    ≡ (".hub.lock", plain true 0) ∷ []
unfolding purge_workspaces purge_entries purge_directory remove_directory in_directory load
    private_dir load_files io hub_io erase
purged = refl
