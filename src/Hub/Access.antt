-- ===== src/Hub/Access.antt =====
-- internal/hub/access.go and the configuration types of internal/hub/config.go. Times are counted
-- from the zero time. `matches` stands for the regular expression `workspacePattern`.
use Prim.Native.String.{◌++◌ as append}
use worldbisect.Prelude.{
  ℤ, pos, negsuc, ℕ, String, Bool, true, false, Option, none, some, List, [], ◌∷◌, ◌||◌, ◌&&◌, not,
  ltb, ◌==◌, str_eq, if◌then◌else◌, length,
}
use worldbisect.Prelude.Exec.{Result, ok, err}

pub record Subject : Type 0 where
  pub id : String
  pub kind : String
  pub disabled : Bool

pub record Membership : Type 0 where
  pub subject_id : String
  pub workspace : String
  pub role : String

-- `none` is the nil pointer.
pub record Key : Type 0 where
  pub id : String
  pub subject_id : String
  pub scopes : List String
  pub expires_at : Option ℕ
  pub token_sha256 : String
  pub workspace : String
  pub permission : String

-- Of the publishers only their number is read here.
pub record Config : Type 0 where
  pub subjects : List Subject
  pub memberships : List Membership
  pub ci_quarantine_until : Option ℕ
  pub ci_publishers : ℕ
  pub audit_retention_days : ℤ
  pub version : ℕ
  pub retention_days : ℕ
  pub max_reports_per_workspace : ℕ
  pub keys : List Key

pub record Principal : Type 0 where
  pub subject_id : String
  pub kind : String
  pub workspace : String
  pub credential_id : String
  pub scopes : List String

-- `slices.Contains`, and membership in a set that a loop builds up.
unfoldable pub contains : String → List String → Bool
contains x [] = false
contains x (y ∷ ys) = str_eq x y || contains x ys

unfoldable pub role_scopes : String → List String
role_scopes role =
    if str_eq role "viewer"
    then "reports:read" ∷ []
    else if str_eq role "publisher"
    then "reports:write" ∷ []
    else if str_eq role "editor"
    then "reports:read" ∷ "reports:write" ∷ "reports:delete" ∷ []
    else []

-- The loop of `membershipScopes`: the first membership of the subject in the workspace counts.
unfoldable pub membership_scopes : List Membership → String → String → List String
unfolding role_scopes
membership_scopes [] subject workspace = []
membership_scopes (m ∷ ms) subject workspace =
    if str_eq m.subject_id subject && str_eq m.workspace workspace
    then role_scopes m.role
    else membership_scopes ms subject workspace

unfoldable pub key_scopes : Key → List String
unfolding role_scopes
key_scopes key = elim key.scopes [
  | [] ↦ if str_eq key.permission "write" then role_scopes "editor" else role_scopes "viewer"
  | s ∷ ss ↦ s ∷ ss
]

module _ (matches : String → Bool) where
  -- The loop over the subjects; the result is the set of their identifiers.
  unfoldable pub validate_subjects : List Subject → List String → Result String (List String)
  unfolding contains
  validate_subjects [] seen = ok seen
  validate_subjects (s ∷ ss) seen =
      let rest = validate_subjects ss (s.id ∷ seen) in
      if not (matches s.id)
        || not (str_eq s.kind "user" || str_eq s.kind "service")
        || contains s.id seen
      then err "subjects require unique identifiers and kind user or service"
      else rest

  abbrev pub member_key : String → String → String
  member_key subject workspace = append subject (append "/" workspace)

  unfoldable pub validate_memberships :
      List String → List Membership → List String → Result String (List String)
  unfolding contains role_scopes
  validate_memberships subjects [] seen = ok seen
  validate_memberships subjects (m ∷ ms) seen =
      let rest = validate_memberships subjects ms (member_key m.subject_id m.workspace ∷ seen) in
      if not (contains m.subject_id subjects)
        || not (matches m.workspace)
        || contains (member_key m.subject_id m.workspace) seen
        || length (role_scopes m.role) == 0
      then err
          "membership requires a configured subject, workspace and unique viewer/editor/publisher role"
      else rest

  -- The loop over a credential's own scopes.
  unfoldable pub validate_scopes : List String → List String → Option String
  unfolding contains
  validate_scopes [] seen = none
  validate_scopes (s ∷ ss) seen =
      let rest = validate_scopes ss (s ∷ seen) in
      if not (contains s ("reports:read" ∷ "reports:write" ∷ "reports:delete" ∷ []))
        || contains s seen
      then some "credential scopes must be unique reports:read, reports:write or reports:delete"
      else rest

  -- The loop over the scopes that a credential has in the end.
  unfoldable pub within_role : String → List String → List String → Option String
  unfolding contains
  within_role id granted [] = none
  within_role id granted (s ∷ ss) =
      let rest = within_role id granted ss in
      if not (contains s granted)
      then some (append "credential " (append id " exceeds its membership role"))
      else rest

  abbrev pub or_else : Option String → Option String → Option String
  or_else (some e) next = some e
  or_else none next = next

  -- The checks of one credential of version 2, and `next` after them.
  unfoldable pub validate_key :
      Config → List String → List String → List String → Key → Option String → Option String
  unfolding validate_scopes within_role key_scopes membership_scopes contains
  validate_key c subjects memberships ids key next =
      if not (matches key.id) || contains key.id ids || not (contains key.subject_id subjects)
      then some "v2 credentials require unique id and configured subject_id"
      else if not (contains (member_key key.subject_id key.workspace) memberships)
      then some (append "credential " (append key.id " has no workspace membership"))
      else if ltb 3 (length key.scopes)
      then some "a credential accepts at most three report scopes"
      else or_else (validate_scopes key.scopes []) (
          or_else
            (within_role key.id (membership_scopes c.memberships key.subject_id key.workspace)
              (key_scopes key))
            next)

  abbrev pub is_empty {ℓ} : {A : Type ℓ} → List A → Bool
  is_empty [] = true
  is_empty (x ∷ xs) = false

  unfoldable pub validate_keys :
      Config → List String → List String → List Key → List String → Option String
  unfolding validate_key
  validate_keys c subjects memberships [] ids = none
  validate_keys c subjects memberships (key ∷ keys) ids =
      let same = validate_keys c subjects memberships keys ids in
      let rest = validate_keys c subjects memberships keys (key.id ∷ ids) in
      if c.version == 1
      then if not (str_eq key.id "") || not (str_eq key.subject_id "") || not (is_empty key.scopes)
        then some "credential identities and scopes require configuration version 2"
        else same
      else validate_key c subjects memberships ids key rest

  abbrev pub bad_quarantine : ℕ → Option ℕ → Bool
  bad_quarantine version none = false
  bad_quarantine version (some t) = not (version == 2) || t == 0

  abbrev pub bad_days : ℤ → Bool
  bad_days (negsuc n) = true
  bad_days (pos n) = ltb 30 n

  abbrev pub with_sets : Result String (List String) → (List String → Option String) → Option String
  with_sets (err e) next = some e
  with_sets (ok set) next = next set

  -- `validateAccessConfig`: the error, if there is one.
  unfoldable pub validate_access : Config → Option String
  unfolding validate_subjects validate_memberships validate_keys
  validate_access c =
      if bad_quarantine c.version c.ci_quarantine_until
      then some "ci_quarantine_until requires version 2 and a valid timestamp"
      else if bad_days c.audit_retention_days
      then some "audit_retention_days must be 1..30 or omitted for 7 days"
      else if ltb 100 (length c.subjects) || ltb 200 (length c.memberships)
      then some "access configuration exceeds 100 subjects or 200 memberships"
      else if c.version == 1
          && (not (is_empty c.subjects) || not (is_empty c.memberships) || ltb 0 c.ci_publishers)
      then some "subjects, memberships and CI publishers require configuration version 2"
      else with_sets (validate_subjects c.subjects []) (λ subjects.
        with_sets (validate_memberships subjects c.memberships [])
          (λ memberships. validate_keys c subjects memberships c.keys []))

-- `key.ExpiresAt != nil && !now.Before(*key.ExpiresAt)`
abbrev pub expired : ℕ → Option ℕ → Bool
expired now none = false
expired now (some t) = not (ltb now t)

-- The loop of `principalForKey` over the subjects.
unfoldable pub principal_from : Config → Key → List Subject → Option Principal
unfolding membership_scopes key_scopes
principal_from c key [] = none
principal_from c key (s ∷ ss) =
    if str_eq s.id key.subject_id
      && not s.disabled
      && ltb 0 (length (membership_scopes c.memberships s.id key.workspace))
    then some (record {
      subject_id = s.id;
      kind = s.kind;
      workspace = key.workspace;
      credential_id = key.id;
      scopes = key_scopes key;
    })
    else principal_from c key ss

-- `digest_prefix` stands for the first twelve bytes of a token's digest.
unfoldable pub principal_for_key : (String → String) → Config → Key → ℕ → Option Principal
unfolding principal_from key_scopes
principal_for_key digest_prefix c key now =
    if str_eq key.token_sha256 ""
    then none
    else if expired now key.expires_at
    then none
    else if c.version == 1
    then some (record {
      subject_id = append "legacy-" (digest_prefix key.token_sha256);
      kind = "legacy-service";
      workspace = key.workspace;
      credential_id = append "legacy-" (digest_prefix key.token_sha256);
      scopes = key_scopes key;
    })
    else principal_from c key c.subjects

-- The loop of `principalRole` over the memberships.
unfoldable pub role_in : List Membership → Principal → String
role_in [] p = ""
role_in (m ∷ ms) p =
    if str_eq m.subject_id p.subject_id && str_eq m.workspace p.workspace
    then m.role
    else role_in ms p

unfoldable pub principal_role : Config → Principal → String
unfolding role_in contains
principal_role c p =
    if c.version == 1
    then if contains "reports:write" p.scopes then "editor" else "viewer"
    else role_in c.memberships p
