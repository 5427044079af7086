-- ===== src/Samples/Members.antt =====
-- A hub configuration of version 2 with one editor, whose credential is limited to reading.
use worldbisect.Prelude.{pos, String, refl, Bool, true, false, none, some, [], ◌∷◌}
use worldbisect.Hub.Access.{
  Key, Config, Principal, contains, role_scopes, membership_scopes, key_scopes, within_role,
  validate_key, validate_keys, validate_scopes, validate_access, validate_subjects,
  validate_memberships, principal_from, principal_for_key,
}
use worldbisect.Hub.Authority.{first, IsAuthorised, principal_for_key-IsAuthorised}

unfoldable matches : String → Bool
matches s = true

unfoldable digest_prefix : String → String
digest_prefix s = s

abbrev reader_key : Key
reader_key = record {
  id = "k1";
  subject_id = "alice";
  scopes = "reports:read" ∷ [];
  expires_at = some 100;
  token_sha256 = "ab";
  workspace = "team";
  permission = "";
}

abbrev config : Config
config = record {
  subjects = record { id = "alice"; kind = "user"; disabled = false } ∷ [];
  memberships = record { subject_id = "alice"; workspace = "team"; role = "editor" } ∷ [];
  ci_quarantine_until = none;
  ci_publishers = 0;
  audit_retention_days = pos 7;
  version = 2;
  retention_days = 7;
  max_reports_per_workspace = 500;
  keys = reader_key ∷ [];
}

abbrev alice : Principal
alice = record {
  subject_id = "alice";
  kind = "user";
  workspace = "team";
  credential_id = "k1";
  scopes = "reports:read" ∷ [];
}

principal_for_key-IsAuthorised_example : IsAuthorised config reader_key 50 alice
unfolding contains role_scopes membership_scopes key_scopes within_role validate_key validate_keys
    validate_scopes validate_access validate_subjects validate_memberships principal_from
    principal_for_key matches
principal_for_key-IsAuthorised_example =
    principal_for_key-IsAuthorised matches digest_prefix config reader_key 50 alice refl refl first
      refl
