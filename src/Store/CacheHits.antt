-- ===== src/Store/CacheHits.antt =====
-- What a hit of `LoadExperimentCache` (internal/store/experiment_cache.go) is.
use worldbisect.Prelude.{
  String, ◌≡◌, refl, ap, Bool, true, false, Option, none, some, not, eq_iff, arith, Bool-cases, inl,
  inr,
}
use worldbisect.Prelude.Exec.{Result, ok, err, Ensures, Ensures-bind}
use worldbisect.Prelude.Files.{lookup}
use worldbisect.Model.{Experiment}
use worldbisect.Store.Disk.{StoreError, CacheEntry, CacheFile, Disk, io}
use worldbisect.Store.CacheFiles.{
  cache_file, is_stale, discard, use_entry, use_file, read_cache, remove_cache,
  load_experiment_cache,
}

-- The key's own file holds the experiment, in a complete entry for exactly this key.
pub record IsHit (key : String) (x : Experiment) (d : Disk) : Type 0 where
  pub file : CacheFile
  pub entry : CacheEntry
  pub on_disk : lookup (cache_file key) d.cache ≡ some file
  pub decodes : file.entry ≡ some entry
  pub same_key : entry.key ≡ key
  pub complete : entry.complete ≡ true
  pub content : entry.experiment ≡ x

-- Only a hit for `some`.
abbrev HitOrNone : String → Disk → Option Experiment → Type 0
HitOrNone key d none = Unit
HitOrNone key d (some x) = IsHit key x d

discard-HitOrNone : (key : String) (d e : Disk) → Ensures (discard key) e (λ o t. HitOrNone key d o)
unfolding discard remove_cache io
discard-HitOrNone key d e none h = tt
discard-HitOrNone key d e (some x) h = ground arith

abbrev experiment_of : Experiment → Result StoreError (Option Experiment) → Experiment
experiment_of d (ok (some x)) = x
experiment_of d (ok none) = d
experiment_of d (err e) = d

use_file-HitOrNone :
    (key : String) (d e : Disk) (file : Option CacheFile)
    → lookup (cache_file key) d.cache ≡ file
    → Ensures (use_file key file) e (λ o t. HitOrNone key d o)
unfolding use_file use_entry
use_file-HitOrNone key d e none found = no_file
  where
    no_file : Ensures (use_file key none) e (λ o t. HitOrNone key d o)
    no_file none h = tt
    no_file (some x) h = cc
use_file-HitOrNone key d e (some f) found = entry_hit f.entry refl
  where
    returned :
        (c : CacheEntry)
        → f.entry ≡ some c
        → is_stale key c ≡ false
        → (p : Option Experiment)
        → ◌≡◌ {A = Result StoreError (Option Experiment)} (ok (some c.experiment)) (ok p)
        → HitOrNone key d p
    returned c k fresh none h = tt
    returned c k fresh (some x) h = record {
      file = f;
      entry = c;
      on_disk = found;
      decodes = k;
      same_key = (eq_iff c.key key).0 (ground arith);
      complete = ground arith;
      content = ap (experiment_of x) h;
    }

    entry_hit :
        (o : Option CacheEntry)
        → f.entry ≡ o
        → Ensures (use_entry key o) e (λ p t. HitOrNone key d p)
    entry_hit none k = discard-HitOrNone key d e
    entry_hit (some c) k = elim (Bool-cases (is_stale key c)) [
      | inl p ↦ rw p (discard-HitOrNone key d e)
      | inr p ↦ rw p (returned c k p)
    ]

read_cache-ok :
    (name : String) (d : Disk) (file : Option CacheFile)
    → (read_cache name d).0 ≡ ok file
    → lookup name d.cache ≡ file
unfolding read_cache io
read_cache-ok name d file h = ground arith

-- When `load_experiment_cache` returns an experiment, the file of this key was on the disk with a
-- complete entry for exactly this key, and the experiment is that entry's.
pub load_experiment_cache-IsHit :
    (hex_digest : String → Bool) (key : String) (d : Disk) (x : Experiment)
    → (load_experiment_cache hex_digest key d).0 ≡ ok (some x)
    → IsHit key x d
unfolding load_experiment_cache
load_experiment_cache-IsHit hex_digest key d x h = elim (Bool-cases (not (hex_digest key))) [
  | inl p ↦ cc (rw p at h)
  | inr p ↦
      Ensures-bind (read_cache (cache_file key)) (use_file key) d (λ o t. HitOrNone key d o)
        (λ file read. use_file-HitOrNone key d _ file (read_cache-ok (cache_file key) d file read))
        (some x) (rw p at h)
]
