-- ===== src/Compare.antt =====
-- internal/experiment/compare.go, with the helpers of internal/model/helpers.go that it calls.
-- `short_hash` stands for the first eight bytes of SHA-256 in hexadecimal, and `digest_strings` for
-- the SHA-256 of a list of texts. `sort.Slice` is not stable; factors of equal identifiers stay in
-- the order of the code's two loops here.
pub mod Genuine
use Prim.Native.String.{◌++◌ as append}
use text.Mathlib.Text.{starts_with}
use worldbisect.Prelude.{
  ℕ, zero, suc, ◌+◌, ◌/◌, ◌%◌, String, Bool, true, false, Option, none, some, List, [], ◌∷◌, ◌++◌,
  ◌&&◌, ◌||◌, not, ltb, ◌==◌, str_eq, if◌then◌else◌, length, take,
}
use worldbisect.Prelude.Files.{Files, lookup, insert, names, str_le, sort_names}
use worldbisect.Model.{
  Capture, Factor, FactorType, environment, workspace, WorkspaceEntry, WorkspaceManifest,
  HostEvidence, SecretEvidence, supported_entry, equal_entry,
}

abbrev pub HashText : Type 0
HashText = String → String

unfoldable pub factor_id : HashText → String → String → String
factor_id short_hash kind key =
    append kind (append ":" (short_hash (append kind (append "\0" key))))

unfoldable pub is_redacted_value : String → Bool
is_redacted_value value = starts_with value "redacted:hmac:"

unfoldable pub secret_name : List SecretEvidence → String → Bool
secret_name [] key = false
secret_name (evidence ∷ rest) key = if str_eq evidence.name key then true else secret_name rest key

unfoldable pub secret_key : Capture → String → Bool
unfolding secret_name
secret_key c key = secret_name c.secret_evidence key

unfoldable pub contains_name : String → List String → Bool
contains_name x [] = false
contains_name x (y ∷ ys) = if str_eq x y then true else contains_name x ys

-- Keys put into a map that serves as a set.
unfoldable pub key_set : List String → List String → List String
unfolding contains_name
key_set [] set = set
key_set (key ∷ keys) set = key_set keys (if contains_name key set then set else key ∷ set)

unfoldable pub sorted_keys : List String → List String → List String
unfolding key_set sort_names
sorted_keys first second = sort_names (key_set second (key_set first []))

drop_empty : List String → List String
drop_empty [] = []
drop_empty (x ∷ xs) = if str_eq x "" then drop_empty xs else x ∷ drop_empty xs

unfoldable pub unique_sorted : List String → List String
unfolding drop_empty key_set sort_names
unique_sorted values = sort_names (key_set (drop_empty values) [])

-- A map's value for a key: the zero value if the key is missing, and whether it is there.
abbrev pub text_of : Option String → String
text_of none = ""
text_of (some v) = v

abbrev pub no_entry : WorkspaceEntry
no_entry = record {
  path = "";
  type = "";
  mode = 0;
  size = 0;
  digest = "";
  blob_digest = "";
  link_target = "";
}

abbrev pub entry_of : Option WorkspaceEntry → WorkspaceEntry
entry_of none = no_entry
entry_of (some e) = e

abbrev pub present {ℓ} : {A : Type ℓ} → Option A → Bool
present none = false
present (some a) = true

abbrev pub bool_eq : Bool → Bool → Bool
bool_eq true b = b
bool_eq false b = not b

unfoldable pub entry_map_from : List WorkspaceEntry → Files WorkspaceEntry → Files WorkspaceEntry
unfolding insert
entry_map_from [] result = result
entry_map_from (e ∷ es) result = entry_map_from es (insert e.path e result)

unfoldable pub entry_map : WorkspaceManifest → Files WorkspaceEntry
unfolding entry_map_from
entry_map manifest = entry_map_from manifest.entries []

-- How one round of a loop of `Compare` ends.
pub data Difference : Type 0 where
  same : Difference
  boundary : String → Difference
  factor : Factor → Difference

module _ (short_hash : HashText) (good bad : Capture) where
  unfoldable pub environment_difference : String → Difference
  unfolding lookup secret_key is_redacted_value factor_id
  environment_difference key =
      let g = lookup key good.command.environment in
      let b = lookup key bad.command.environment in
      if str_eq (text_of g) (text_of b) && bool_eq (present g) (present b)
      then same
      else if is_redacted_value (text_of g)
          || is_redacted_value (text_of b)
          || secret_key good key
          || secret_key bad key
      then boundary (
          append "secret environment variable "
            (append key " differs but is not eligible for intervention"))
      else factor (record {
        id = factor_id short_hash "env" key;
        type = environment;
        key = key;
        good_present = present g;
        bad_present = present b;
        good_value = text_of g;
        bad_value = text_of b;
        good_entry = no_entry;
        bad_entry = no_entry;
        intervenable = true;
      })

  unfoldable pub workspace_difference : String → Difference
  unfolding lookup entry_map equal_entry supported_entry factor_id
  workspace_difference path =
      let g = lookup path (entry_map good.workspace) in
      let b = lookup path (entry_map bad.workspace) in
      if present g && present b && equal_entry (entry_of g) (entry_of b)
      then same
      else if (present g && not (supported_entry (entry_of g)))
          || (present b && not (supported_entry (entry_of b)))
      then boundary (append "unsupported workspace entry differs: " path)
      else factor (record {
        id = factor_id short_hash "workspace" path;
        type = workspace;
        key = path;
        good_present = present g;
        bad_present = present b;
        good_value = "";
        bad_value = "";
        good_entry = entry_of g;
        bad_entry = entry_of b;
        intervenable = true;
      })

abbrev pub add_difference : Difference → List Factor × List String → List Factor × List String
add_difference same (fs, bs) = (fs, bs)
add_difference (boundary b) (fs, bs) = (fs, b ∷ bs)
add_difference (factor f) (fs, bs) = (f ∷ fs, bs)

-- One of the two loops: the factors and the boundaries, in the order of the keys.
unfoldable pub collect : (String → Difference) → List String → List Factor × List String
collect difference [] = ([], [])
collect difference (key ∷ keys) = add_difference (difference key) (collect difference keys)

insert_factor : Factor → List Factor → List Factor
insert_factor f [] = f ∷ []
insert_factor f (g ∷ gs) = if str_le f.id g.id then f ∷ g ∷ gs else g ∷ insert_factor f gs

unfoldable pub sort_factors : List Factor → List Factor
unfolding insert_factor
sort_factors [] = []
sort_factors (f ∷ fs) = insert_factor f (sort_factors fs)

text_at : List String → ℕ → String
text_at [] n = ""
text_at (x ∷ xs) zero = x
text_at (x ∷ xs) (suc n) = text_at xs n

digit : ℕ → String
unfolding text_at
digit n = text_at ("0" ∷ "1" ∷ "2" ∷ "3" ∷ "4" ∷ "5" ∷ "6" ∷ "7" ∷ "8" ∷ "9" ∷ []) n

decimal_from : ℕ → ℕ → String → String
decimal_from zero n acc = acc
decimal_from (suc fuel) n acc =
    let rest = decimal_from fuel (n / 10) (append (digit (n % 10)) acc) in
    if ltb n 10 then append (digit n) acc else rest

-- `%d`. A number has no more digits than its value and one.
unfoldable pub decimal : ℕ → String
unfolding decimal_from digit
decimal n = decimal_from (suc n) n ""

unfoldable pub host_digest : (List String → String) → HostEvidence → String
host_digest digest_strings host = digest_strings (
    host.os ∷ host.arch ∷ host.kernel ∷ host.hostname ∷ host.mount_digest ∷ host.resource_digest
    ∷ host.security_digest ∷ [])

abbrev is_empty {ℓ} : {A : Type ℓ} → List A → Bool
is_empty [] = true
is_empty (x ∷ xs) = false

unfoldable pub evidence_boundaries : (List String → String) → Capture → Capture → List String
unfolding host_digest
evidence_boundaries digest_strings good bad =
    (if str_eq (host_digest digest_strings good.host) (host_digest digest_strings bad.host)
      then []
      else "host, mount, resource, or kernel evidence differs and is not an automatic causal factor in 1.0"
        ∷ [])
    ++ (if is_empty good.consulted_paths || is_empty bad.consulted_paths
        then "consulted-path capture is incomplete; candidate scope is bounded to environment and workspace"
          ∷ []
        else [])

-- The limit on the sorted factors.
unfoldable pub limit_factors : ℕ → List Factor → List String → List Factor × List String
unfolding decimal unique_sorted
limit_factors max_factors factors boundaries =
    if ltb 0 max_factors && ltb max_factors (length factors)
    then (
      take max_factors factors,
      unique_sorted (
          boundaries
          ++ append "factor limit reached: " (
              append (decimal max_factors)
                (append " of " (append (decimal (length factors)) " retained")))
            ∷ []),
    )
    else (factors, unique_sorted boundaries)

module _ (short_hash : HashText) (good bad : Capture) where
  unfoldable pub environment_differences : List Factor × List String
  unfolding sorted_keys names collect environment_difference
  environment_differences =
      collect (environment_difference short_hash good bad)
        (sorted_keys (names good.command.environment) (names bad.command.environment))

  unfoldable pub workspace_differences : List Factor × List String
  unfolding sorted_keys names entry_map collect workspace_difference
  workspace_differences =
      collect (workspace_difference short_hash good bad)
        (sorted_keys (names (entry_map good.workspace)) (names (entry_map bad.workspace)))

unfoldable pub compare :
    HashText → (List String → String) → Capture → Capture → ℕ → List Factor × List String
unfolding environment_differences workspace_differences sort_factors limit_factors
    evidence_boundaries
compare short_hash digest_strings good bad max_factors =
    let env = environment_differences short_hash good bad in
    let files = workspace_differences short_hash good bad in
    limit_factors max_factors (sort_factors (env.0 ++ files.0))
      (env.1 ++ files.1 ++ evidence_boundaries digest_strings good bad)
