-- ===== src/Hub/Submission.antt =====
-- internal/hub/report.go: what a submitted report may hold, and `PublisherIdentity.validate` of
-- internal/hub/oidc.go. The regular expressions, the parser of URLs and the tables of Unicode are a
-- `Host`.
use Prim.Native.Char.{Char, code}
use Prim.Native.String.{◌++◌ as append}
use text.Mathlib.Text.{starts_with}
use worldbisect.Prelude.{
  ℤ, pos, negsuc, ℕ, String, Bool, true, false, Option, none, some, ◌||◌, ◌&&◌, not, ltb, ◌==◌,
  str_eq, if◌then◌else◌,
}
use worldbisect.Hub.Trail.{byte_length}

-- `url.URL`
pub record Url : Type 0 where
  pub scheme : String
  pub host : String
  pub has_user : Bool
  pub raw_query : String
  pub force_query : Bool
  pub fragment : String
  pub raw_path : String
  pub path : String

pub record Host : Type 0 where
  -- Whether a text matches the pattern.
  pub matches : String → String → Bool
  -- `none` is an error.
  pub parse_url : String → Option Url
  pub is_valid_utf8 : String → Bool
  pub trim_space : String → String
  pub is_control : Char → Bool

pub record Submission : Type 0 where
  pub repository : String
  pub check_name : String
  pub commit_sha : String
  pub run_url : String
  pub status : String
  pub finding : String
  pub tested : String
  pub next_step : String
  pub experiments : ℤ
  pub analysis_id : String

pub record PublisherIdentity : Type 0 where
  pub provider : String
  pub subject_id : String
  pub repository_id : String
  pub repository_owner_id : String
  pub workflow_ref : String
  pub ref : String
  pub run_id : String
  pub run_attempt : String

abbrev repository_pattern : String
repository_pattern = "^[A-Za-z0-9][A-Za-z0-9_.-]{0,99}/[A-Za-z0-9][A-Za-z0-9_.-]{0,99}$"

abbrev commit_pattern : String
commit_pattern = "^(?:[a-fA-F0-9]{40}|[a-fA-F0-9]{64})$"

abbrev pub id_pattern : String
id_pattern = "^[a-f0-9]{32}$"

abbrev run_id_pattern : String
run_id_pattern = "^[0-9]{1,20}$"

abbrev workspace_pattern : String
workspace_pattern = "^[a-zA-Z0-9][a-zA-Z0-9_-]{0,63}$"

abbrev decimal_id : String
decimal_id = "^[1-9][0-9]{0,19}$"

abbrev branch_ref : String
branch_ref = "^refs/heads/[A-Za-z0-9_./-]{1,200}$"

abbrev workflow_file : String
workflow_file = "^[A-Za-z0-9_.-]+\\.ya?ml$"

-- `strings.CutPrefix`
unfoldable pub cut_prefix : String → String → Option String
cut_prefix String.[] s = some s
cut_prefix (String.◌∷◌ c t) String.[] = none
cut_prefix (String.◌∷◌ c t) (String.◌∷◌ d s) =
    let rest = cut_prefix t s in if code c == code d then rest else none

-- `strings.CutSuffix`
unfoldable pub cut_suffix : String → String → Option String
cut_suffix t String.[] = if str_eq String.[] t then some String.[] else none
cut_suffix t (String.◌∷◌ c s) = elim (cut_suffix t s) [
  | some r ↦ some (String.◌∷◌ c r)
  | none ↦ if str_eq (String.◌∷◌ c s) t then some String.[] else none
]

-- `strings.TrimPrefix`
abbrev trim_prefix : String → String → String
trim_prefix t s = elim (cut_prefix t s) [ some r ↦ r | none ↦ s ]

-- `strings.TrimSuffix`
abbrev trim_suffix : String → String → String
trim_suffix t s = elim (cut_suffix t s) [ some r ↦ r | none ↦ s ]

module _ (host : Host) where
  -- The loop over the runes of a field.
  unfoldable pub has_control : String → Bool
  has_control String.[] = false
  has_control (String.◌∷◌ c s) =
      host.is_control c && not (code c == 10) && not (code c == 9) || has_control s

  -- One turn of the loop over the fields.
  unfoldable pub valid_field : String → ℕ → Bool → Bool
  unfolding has_control byte_length
  valid_field value limit required =
      not (
        ltb limit (byte_length value)
        || not (host.is_valid_utf8 value)
        || required && str_eq (host.trim_space value) "")
      && not (has_control value)

  abbrev within_limit : ℤ → Bool
  within_limit (pos n) = not (ltb 1000000 n)
  within_limit (negsuc n) = false

  abbrev is_status : String → Bool
  is_status s =
      str_eq s "PROVEN" || str_eq s "SUPPORTED" || str_eq s "CORRELATED" || str_eq s "UNPROVEN"

  unfoldable pub valid_run_url : String → Option Url → Bool
  unfolding cut_prefix
  valid_run_url repository none = false
  valid_run_url repository (some u) =
      let prefix = append "/" (append repository "/actions/runs/") in
      str_eq u.scheme "https"
      && str_eq u.host "github.com"
      && not u.has_user
      && str_eq u.raw_query ""
      && not u.force_query
      && str_eq u.fragment ""
      && str_eq u.raw_path ""
      && starts_with u.path prefix
      && host.matches run_id_pattern (trim_prefix prefix u.path)

  -- `Submission.Validate`
  unfoldable pub valid_submission : Submission → Bool
  unfolding byte_length valid_field valid_run_url
  valid_submission s =
      not (ltb 200 (byte_length s.repository))
      && host.matches repository_pattern s.repository
      && valid_field s.check_name 120 true
      && valid_field s.finding 2000 true
      && valid_field s.tested 2000 true
      && valid_field s.next_step 2000 true
      && valid_field s.analysis_id 128 false
      && (str_eq s.commit_sha "" || host.matches commit_pattern s.commit_sha)
      && within_limit s.experiments
      && is_status s.status
      && (str_eq s.run_url "" || valid_run_url s.repository (host.parse_url s.run_url))

  -- `PublisherIdentity.validate`; `none` is the nil pointer.
  unfoldable pub valid_publisher : Option PublisherIdentity → Submission → Bool
  unfolding cut_prefix cut_suffix
  valid_publisher none s = true
  valid_publisher (some p) s =
      let workflows = append s.repository "/.github/workflows/" in
      let file = trim_suffix (append "@" p.ref) (trim_prefix workflows p.workflow_ref) in
      str_eq p.provider "github-actions-oidc"
      && host.matches workspace_pattern p.subject_id
      && host.matches decimal_id p.repository_id
      && host.matches decimal_id p.repository_owner_id
      && host.matches decimal_id p.run_id
      && host.matches decimal_id p.run_attempt
      && host.matches branch_ref p.ref
      && host.matches workflow_file file
      && str_eq p.workflow_ref (append workflows (append file (append "@" p.ref)))
      && not (str_eq s.commit_sha "")
      && str_eq s.run_url
          (append "https://github.com/" (append s.repository (append "/actions/runs/" p.run_id)))
