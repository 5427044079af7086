-- ===== src/Store/CacheFiles.antt =====
-- internal/store/experiment_cache.go. `hex_digest` stands for `hex.DecodeString` without an error, on
-- a text of 64 bytes. `encoded` is the file that holds an entry's JSON, if it encodes: its size, and the
-- entry that is read from it, which need not be the same (texts that are not UTF-8 are replaced).
use Prim.Native.String.{◌++◌ as append}
use worldbisect.Prelude.{
  ℕ, ◌+◌, ◌-◌, ◌*◌, ◌^◌, String, Bool, true, Option, none, some, List, [], ◌∷◌, ◌||◌, not, ltb, leb,
  str_eq, if◌then◌else◌,
}
use worldbisect.Prelude.Exec.{ok, err, pure, fail, attempt, ◌>>=◌, ◌>>◌}
use worldbisect.Prelude.Files.{lookup, insert, erase, names, sort_names}
use worldbisect.Model.{Experiment}
use worldbisect.Store.Disk.{
  not_exist, encode_error, invalid_identifier, entry_too_large, CacheEntry, CacheFile, Io, io,
}

abbrev pub max_experiment_cache_bytes : ℕ
max_experiment_cache_bytes = 64 * 2 ^ 20

abbrev pub cache_file : String → String
cache_file key = append key ".json"

-- `os.Remove`
unfoldable pub remove_cache : String → Io (Unit {0})
unfolding erase
remove_cache name = do io; λ d. (ok tt, record d { cache = erase name d.cache })

-- `os.ReadFile`, with a missing file apart.
unfoldable pub read_cache : String → Io (Option CacheFile)
unfolding lookup
read_cache name = do io; λ d. (ok (lookup name d.cache), d)

abbrev pub is_stale : String → CacheEntry → Bool
is_stale key e = not (str_eq e.key key) || not e.complete

-- What is left of `LoadExperimentCache` once the file has been read; a failing removal is ignored.
unfoldable pub discard : String → Io (Option Experiment)
unfolding remove_cache
discard key = attempt (remove_cache (cache_file key)) (λ _. pure none) (λ _. pure none)

unfoldable pub use_entry : String → Option CacheEntry → Io (Option Experiment)
unfolding discard
use_entry key none = discard key
use_entry key (some e) = if is_stale key e then discard key else pure (some e.experiment)

unfoldable pub use_file : String → Option CacheFile → Io (Option Experiment)
unfolding use_entry
use_file key none = pure none
use_file key (some f) = use_entry key f.entry

-- `os.Stat` and the size.
unfoldable pub size_of : String → Io ℕ
size_of name = do
  io
  λ d. elim (lookup name d.cache) [ none ↦ (err not_exist, d) | some f ↦ (ok f.size, d) ]

-- `filepath.Glob`, sorted. It takes a directory that cannot be read for one without files.
unfoldable pub cache_names : Io (List String)
unfolding sort_names names
cache_names = attempt io (λ _. pure []) (λ _ d. (ok (sort_names (names d.cache)), d))

unfoldable pub total_from : List String → ℕ → Io ℕ
unfolding size_of
total_from [] total = pure total
total_from (name ∷ rest) total = do size ← size_of name; total_from rest (total + size)

-- The loop that removes files in the order of their names. A total below a file's size cannot be,
-- since the total is the sum of the sizes.
unfoldable pub prune_from : String → List String → ℕ → Io ℕ
unfolding size_of remove_cache
prune_from preserve [] total = pure total
prune_from preserve (name ∷ rest) total =
    if leb total max_experiment_cache_bytes || str_eq name (cache_file preserve)
    then prune_from preserve rest total
    else do size ← size_of name; remove_cache name; prune_from preserve rest (total - size)

unfoldable pub prune : String → Io (Unit {0})
unfolding cache_names total_from prune_from remove_cache
prune preserve = do
  paths ← cache_names
  total ← total_from paths 0
  left ← prune_from preserve paths total
  if ltb max_experiment_cache_bytes left then remove_cache (cache_file preserve) else pure tt

-- `writeFileAtomic`
unfoldable pub write_cache : String → CacheFile → Io (Unit {0})
unfolding insert
write_cache name f = do io; λ d. (ok tt, record d { cache = insert name f d.cache })

module _ (hex_digest : String → Bool) where
  unfoldable pub load_experiment_cache : String → Io (Option Experiment)
  unfolding use_file read_cache
  load_experiment_cache key =
      if not (hex_digest key)
      then fail invalid_identifier
      else do file ← read_cache (cache_file key); use_file key file

  abbrev pub write_entry : String → Option CacheFile → Io (Unit {0})
  write_entry key none = fail encode_error
  write_entry key (some f) =
      if ltb max_experiment_cache_bytes f.size
      then fail entry_too_large
      else do write_cache (cache_file key) f; prune key

  unfoldable pub save_experiment_cache :
      (CacheEntry → Option CacheFile) → String → Experiment → Io (Unit {0})
  unfolding write_cache prune
  save_experiment_cache encoded key x =
      let entry : CacheEntry = record { key = key; complete = true; experiment = x } in
      if not (hex_digest key) then fail invalid_identifier else write_entry key (encoded entry)
