-- ===== src/Store/Entities.antt =====
-- The entities of internal/store/store.go: one file for each capture, analysis or job, in a directory
-- of its kind. `V` is the type of the entities. A file is what it decodes to, and `none` if it does not
-- decode; `encoded` is the file that holds a value's JSON, if it encodes, which need not decode to the
-- same value.
use Prim.Native.Char.{code}
use Prim.Native.String.{◌++◌ as append}
use worldbisect.Prelude.{
  ℕ, String, Bool, true, false, Option, none, some, List, [], ◌∷◌, ◌||◌, ◌&&◌, not, ltb, leb, ◌==◌,
  str_eq, length, take, if◌then◌else◌,
}
use worldbisect.Prelude.Exec.{ok, err, Exec, pure, fail, attempt, ◌>>=◌, ◌>>◌}
use worldbisect.Prelude.Files.{Files, lookup, insert, names, sort_names}
use worldbisect.Model.{Job}
use worldbisect.Store.JobFiles.{current_schema_version}

abbrev pub codes : String → List ℕ
codes String.[] = []
codes (String.◌∷◌ c s) = code c ∷ codes s

abbrev within : ℕ → ℕ → ℕ → Bool
within low high c = leb low c && leb c high

unfoldable pub allowed : ℕ → Bool
allowed c =
    within b'a' b'z' c
    || within b'A' b'Z' c
    || within b'0' b'9' c
    || c == b'-'
    || c == b'_'
    || c == b'.'

unfoldable pub all_allowed : List ℕ → Bool
unfolding allowed
all_allowed [] = true
all_allowed (c ∷ cs) = allowed c && all_allowed cs

abbrev starts_double : ℕ → List ℕ → Bool
starts_double c [] = false
starts_double c (d ∷ ds) = c == b'.' && d == b'.'

-- `strings.Contains(value, "..")`
unfoldable pub has_double_dot : List ℕ → Bool
has_double_dot [] = false
has_double_dot (c ∷ cs) = starts_double c cs || has_double_dot cs

-- `len` counts bytes and this counts characters; they are the same where all characters are allowed,
-- and a value with another character is refused either way.
unfoldable pub valid_identifier : String → Bool
unfolding all_allowed has_double_dot
valid_identifier value =
    if str_eq value "" || ltb 128 (length (codes value))
    then false
    else all_allowed (codes value) && not (has_double_dot (codes value))

pub data EntityError : Type 0 where
  bad_identifier io_failed absent undecodable unencodable : EntityError

pub record Directory (V : Type 0) : Type 0 where
  pub files : Files (Option V)
  pub faults : List Bool

abbrev pub Entities : Type 0 → Type 0 → Type 0
Entities V A = Exec (Directory V) EntityError A

reverse_onto : List String → List String → List String
reverse_onto [] acc = acc
reverse_onto (x ∷ xs) acc = reverse_onto xs (x ∷ acc)

abbrev pub limited : ℕ → List String → List String
limited limit files = if ltb 0 limit && ltb limit (length files) then take limit files else files

module _ {V : Type 0} where
  unfoldable pub call : Entities V (Unit {0})
  call d = elim d.faults [
    | [] ↦ (ok tt, d)
    | true ∷ rest ↦ (err io_failed, record d { faults = rest })
    | false ∷ rest ↦ (ok tt, record d { faults = rest })
  ]

  -- `writeJSONAtomic`
  unfoldable pub write_file : String → Option (Option V) → Entities V (Unit {0})
  unfolding call insert
  write_file name none = fail unencodable
  write_file name (some f) = do call; λ d. (ok tt, record d { files = insert name f d.files })

  -- `readJSON`
  unfoldable pub read_file : String → Entities V V
  unfolding call
  read_file name = do
    call
    λ d. elim (lookup name d.files) [
      | none ↦ (err absent, d)
      | some f ↦ elim f [ none ↦ (err undecodable, d) | some v ↦ (ok v, d) ]
    ]

  unfoldable pub save_entity : (V → Option (Option V)) → String → V → Entities V (Unit {0})
  unfolding write_file
  save_entity encoded identifier value =
      if not (valid_identifier identifier)
      then fail bad_identifier
      else write_file (append identifier ".json") (encoded value)

  unfoldable pub load_entity : String → Entities V V
  unfolding read_file
  load_entity identifier =
      if not (valid_identifier identifier)
      then fail bad_identifier
      else read_file (append identifier ".json")

  unfoldable pub read_files : List String → Entities V (List V)
  unfolding read_file
  read_files [] = pure []
  read_files (name ∷ rest) = do
    value ← read_file name
    values ← read_files rest
    pure (value ∷ values)

  -- `filepath.Glob`, in descending order, up to the limit; a limit of 0 is none. It takes a directory
  -- that cannot be read for one without files.
  unfoldable pub list_entities : ℕ → Entities V (List V)
  unfolding call read_files reverse_onto
  list_entities limit = do
    files ←
        attempt call (λ _. pure [])
          (λ _ d. (ok (limited limit (reverse_onto (sort_names (names d.files)) [])), d))
    read_files files

abbrev pub stamp_job : Job → Job
stamp_job job = record job { schema_version = current_schema_version }

-- `SaveJob`
unfoldable pub save_job : (Job → Option (Option Job)) → Job → Entities Job (Unit {0})
unfolding save_entity
save_job encoded job = save_entity encoded job.id (stamp_job job)

unfoldable pub load_job : String → Entities Job Job
unfolding load_entity
load_job identifier = load_entity identifier

unfoldable pub list_jobs : ℕ → Entities Job (List Job)
unfolding list_entities
list_jobs limit = list_entities limit
