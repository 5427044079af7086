-- ===== src/Samples/Shelves.antt =====
-- A directory with one report, and requests on it.
use worldbisect.Prelude.{ℕ, pos, refl, ◌≡◌, true, false, none, some, [], ◌∷◌, arith}
use worldbisect.Prelude.Exec.{ok}
use worldbisect.Prelude.Files.{lookup, erase}
use worldbisect.Hub.Submission.{
  Host, Submission, cut_suffix, has_control, valid_field, valid_submission, valid_publisher,
}
use worldbisect.Hub.Trail.{byte_length}
use worldbisect.Hub.Reports.{
  Report, Folder, io, private_dir, load_report, read_report, load_file, load_files, load,
  find_report, delete_report,
}
use worldbisect.Hub.Reports.{list_reports, insert_report, sort_reports}
use worldbisect.Hub.Reports.Shelf.{shelf}
use worldbisect.Hub.Reports.Newest.{AreNewest, list_reports-AreNewest}
use worldbisect.Hub.Reports.Requests.{delete, done, serve, Refines, serve-Refines}

-- Every text matches every pattern.
abbrev host : Host
host = record {
  matches = λ pattern s. true;
  parse_url = λ s. none;
  is_valid_utf8 = λ s. true;
  trim_space = λ s. s;
  is_control = λ c. false;
}

abbrev submission : Submission
submission = record {
  repository = "team/tool";
  check_name = "unit";
  commit_sha = "";
  run_url = "";
  status = "PROVEN";
  finding = "the locale";
  tested = "8 differences";
  next_step = "pin it";
  experiments = pos 12;
  analysis_id = "";
}

abbrev saved : Report
saved = record { id = "a1"; created_at = 50; publisher = none; submission = submission }

-- `.tmp-7` was left by an interrupted write.
abbrev desk : Folder
desk = record {
  is_private = true;
  files =
      ("a1.json", record { is_private = true; size = 300; content = some saved })
      ∷ (".tmp-7", record { is_private = true; size = 10; content = none })
      ∷ [];
  clock = λ n. 60;
  faults = [];
}

abbrev encoded : Report → ℕ
encoded r = 300

deleted : serve host encoded 100 (delete "a1") desk ≡ (ok done, record desk { files = [] })
unfolding delete_report load private_dir io load_files load_file read_report load_report find_report
    cut_suffix valid_submission valid_publisher valid_field has_control byte_length
deleted = refl

serve-Refines_example :
    Refines host encoded 100
      (delete "a1")
      desk
      90
      (serve host encoded 100 (delete "a1") desk).0
      (serve host encoded 100 (delete "a1") desk).1.files
unfolding lookup
serve-Refines_example =
    serve-Refines host encoded 100 (delete "a1") desk (refl, (refl, tt)) tt 90 (omega arith)

list_reports-AreNewest_example : AreNewest host encoded 100 (shelf 100 60 desk.files) (saved ∷ [])
unfolding list_reports sort_reports insert_report load private_dir io load_files load_file
    read_report load_report cut_suffix valid_submission valid_publisher valid_field has_control
    byte_length erase lookup
list_reports-AreNewest_example =
    list_reports-AreNewest host encoded 100 desk (saved ∷ []) (refl, (refl, tt)) refl
