-- ===== src/Store/CacheSaves.antt =====
-- What `SaveExperimentCache` (internal/store/experiment_cache.go) leaves, and what is loaded after it.
use worldbisect.Prelude.{
  String, ◌≡◌, refl, sym, ap, subst, ◌∙◌, ◌⊎◌, inl, inr, List, ◌∷◌, Bool, true, false, Option, none,
  some, not, ltb, arith, Bool-cases, [],
}
use mathlib.Core.Option.{some-injective}
use text.Mathlib.TextPositions.{eq_refl}
use worldbisect.Prelude.Exec.{ok, err, ◌>>=◌, Ensures, Ensures-bind}
use worldbisect.Prelude.Files.{lookup, insert, lookup-insert_self}
use worldbisect.Prelude.Weights.{AreDistinct, insert-AreDistinct}
use worldbisect.Model.{Experiment}
use worldbisect.Store.Disk.{CacheEntry, CacheFile, Disk, fails, io, io_error}
use worldbisect.Store.CacheFiles.{
  max_experiment_cache_bytes, cache_file, prune, use_entry, use_file, read_cache, write_cache,
  write_entry, save_experiment_cache, load_experiment_cache,
}
use worldbisect.Store.CacheBounds.{after_io, IsWithin, prune-IsWithin}

write_cache-insert :
    (name : String) (f : CacheFile) (d : Disk)
    → Ensures (write_cache name f) d (λ _ e. e.cache ≡ insert name f d.cache)
unfolding write_cache
write_cache-insert name f d =
    after_io _ d (λ _ e. e.cache ≡ insert name f d.cache) (λ e same _ h. ap (insert name f) same)

abbrev entry_of : String → Experiment → CacheEntry
entry_of key x = record { key = key; complete = true; experiment = x }

-- What a save leaves: the file that the entry is encoded as, and a cache within its limit.
pub record IsSaved (encoded : CacheEntry → Option CacheFile) (key : String) (x : Experiment)
    (d : Disk) : Type 0 where
  pub file : CacheFile
  pub encodes : encoded (entry_of key x) ≡ some file
  pub within : IsWithin key file d

-- The second call is the next one after a write.
write_cache-fails :
    (name : String) (f : CacheFile) (d : Disk)
    → fails 1 d.faults ≡ false
    → fails 0 (write_cache name f d).1.faults ≡ false ⊎ ((write_cache name f d).0 ≡ err io_error)
unfolding write_cache io
write_cache-fails name f d works = go d.faults works
  where
    go :
        (faults : List Bool)
        → fails 1 faults ≡ false
        → (fails 0 (write_cache name f (record d { faults = faults })).1.faults ≡ false)
          ⊎ ((write_cache name f (record d { faults = faults })).0 ≡ err io_error)
    go [] w = inl refl
    go (true ∷ rest) w = inr refl
    go (false ∷ []) w = inl refl
    go (false ∷ b ∷ rest) w = inl w

write_entry-IsSaved :
    (hex_digest : String → Bool) (encoded : CacheEntry → Option CacheFile) (key : String)
    (x : Experiment) (o : Option CacheFile) (d : Disk)
    → encoded (entry_of key x) ≡ o
    → fails 1 d.faults ≡ false
    → AreDistinct d.cache
    → Ensures (write_entry hex_digest key o) d (λ _ e. IsSaved encoded key x e)
write_entry-IsSaved hex_digest encoded key x none d encodes works distinct = λ _ h. cc
write_entry-IsSaved hex_digest encoded key x (some file) d encodes works distinct =
    elim (Bool-cases (ltb max_experiment_cache_bytes file.size)) [
      | inl p ↦ rw p (λ _ h. cc)
      | inr p ↦ rw p (
          Ensures-bind (write_cache (cache_file key) file) (λ _. prune key) d
            (λ _ e. IsSaved encoded key x e)
            (λ u r.
              let e : Disk = (write_cache (cache_file key) file d).1 in
              let written = write_cache-insert (cache_file key) file d u r in
              λ v s. record {
                file = file;
                encodes = encodes;
                within =
                    prune-IsWithin key file e
                      (elim (write_cache-fails (cache_file key) file d works) [
                        | inl w ↦ w
                        | inr q ↦ cc (r, q)
                      ])
                      (ground arith)
                      (subst AreDistinct (sym written)
                        (insert-AreDistinct (cache_file key) file d.cache distinct))
                      (subst (λ c. lookup (cache_file key) c ≡ some file) (sym written)
                        (lookup-insert_self (cache_file key) file d.cache))
                      v s;
              }))
    ]

-- In a directory in which no name stands twice, a save without an error, whose second call of the
-- system, the listing of the cache, does not fail, leaves a cache in which still none does, whose
-- files together take at most 64 MiB, however much it held before, and in the key's own file what
-- this experiment's complete entry is encoded as.
pub save_experiment_cache-IsSaved :
    (hex_digest : String → Bool) (encoded : CacheEntry → Option CacheFile) (key : String)
    (x : Experiment) (d : Disk)
    → AreDistinct d.cache
    → fails 1 d.faults ≡ false
    → (save_experiment_cache hex_digest encoded key x d).0 ≡ ok tt
    → IsSaved encoded key x (save_experiment_cache hex_digest encoded key x d).1
unfolding save_experiment_cache
save_experiment_cache-IsSaved hex_digest encoded key x d distinct works =
    elim (Bool-cases (not (hex_digest key))) [
      | inl p ↦ rw p (λ h. cc)
      | inr p ↦ rw p (
          write_entry-IsSaved hex_digest encoded key x (encoded (entry_of key x)) d refl works
            distinct tt)
    ]

saves_digests :
    (hex_digest : String → Bool) (encoded : CacheEntry → Option CacheFile) (key : String)
    (x : Experiment) (d : Disk)
    → (save_experiment_cache hex_digest encoded key x d).0 ≡ ok tt
    → not (hex_digest key) ≡ false
unfolding save_experiment_cache
saves_digests hex_digest encoded key x d h = elim (Bool-cases (not (hex_digest key))) [
  | inl p ↦ cc (rw p at h)
  | inr p ↦ p
]

found_file :
    (key : String) (x : Experiment) (d : Disk) (file : CacheFile)
    → file.entry ≡ some (entry_of key x)
    → lookup (cache_file key) d.cache ≡ some file
    → d.faults ≡ []
    → ((do file ← read_cache (cache_file key); use_file key file) d).0 ≡ ok (some x)
unfolding read_cache use_file use_entry io
found_file key x d file decodes stored calm = rw (calm, stored, decodes, eq_refl key) refl

-- In a directory in which no name stands twice, an experiment that was saved without an error, where
-- the listing of the cache did not fail, is loaded back by its key as JSON gives it back, when the
-- system does not fail the read: if what is encoded for it decodes to the complete entry of the key
-- with the experiment `y`, then `y` is loaded, for the pruning has not removed the file.
pub load_experiment_cache-save_experiment_cache :
    (hex_digest : String → Bool) (encoded : CacheEntry → Option CacheFile) (key : String)
    (x y : Experiment) (file : CacheFile) (d : Disk)
    → encoded (entry_of key x) ≡ some file
    → file.entry ≡ some (entry_of key y)
    → AreDistinct d.cache
    → fails 1 d.faults ≡ false
    → (save_experiment_cache hex_digest encoded key x d).0 ≡ ok tt
    → (load_experiment_cache hex_digest key
        (record ((save_experiment_cache hex_digest encoded key x d).1) { faults = [] })).0
      ≡ ok (some y)
unfolding load_experiment_cache
load_experiment_cache-save_experiment_cache hex_digest encoded key x y file d encodes decodes
      distinct works h =
    let saved = save_experiment_cache-IsSaved hex_digest encoded key x d distinct works h in
    let same : saved.file ≡ file = some-injective _ _ (sym saved.encodes ∙ encodes) in
    rw (saves_digests hex_digest encoded key x d h) (
      found_file key y
        (record ((save_experiment_cache hex_digest encoded key x d).1) { faults = [] }) saved.file
        (ap (λ (f : CacheFile). f.entry) same ∙ decodes) saved.within.stored refl)
