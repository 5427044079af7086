-- ===== src/Samples/Cached.antt =====
-- An entry in the experiment cache of internal/store/experiment_cache.go.
use worldbisect.Prelude.{String, ◌≡◌, refl, Bool, true, false, Option, some, [], ◌∷◌}
use worldbisect.Prelude.Exec.{ok}
use worldbisect.Prelude.Files.{lookup, insert, erase, names, sort_names, insert_name}
use worldbisect.Model.{Experiment}
use worldbisect.Engine.World.{no_experiment}
use worldbisect.Store.Disk.{Disk, CacheEntry, CacheFile, io}
use worldbisect.Store.CacheFiles.{
  load_experiment_cache, read_cache, use_file, use_entry, save_experiment_cache, write_cache, prune,
  cache_names, total_from, prune_from, size_of,
}
use worldbisect.Store.CacheSaves.{
  IsSaved, save_experiment_cache-IsSaved, load_experiment_cache-save_experiment_cache,
}
use worldbisect.Store.CacheHits.{IsHit, load_experiment_cache-IsHit}

unfoldable hex_digest : String → Bool
hex_digest s = true

abbrev experiment : Experiment
experiment = record no_experiment { id = "exp_1"; kind = "baseline" }

abbrev one_entry : Disk
one_entry = record {
  jobs = [];
  idempotency = [];
  audit = [];
  audit_whole = true;
  tears = [];
  faults = false ∷ [];
  cache =
      (
        "abc.json",
        record {
          entry = some (record { key = "abc"; complete = true; experiment = experiment });
          size = 300;
        },
      )
      ∷ [];
}

load_experiment_cache-IsHit_example : IsHit "abc" experiment one_entry
unfolding load_experiment_cache read_cache use_file use_entry io lookup hex_digest
load_experiment_cache-IsHit_example =
    load_experiment_cache-IsHit hex_digest "abc" one_entry experiment refl

unfoldable encoded : CacheEntry → Option CacheFile
encoded e = some (record { entry = some e; size = 400 })

abbrev stored_file : CacheFile
stored_file = record {
  entry = some (record { key = "def"; complete = true; experiment = experiment });
  size = 400;
}

save_experiment_cache-IsSaved_example :
    IsSaved encoded "def" experiment
      (save_experiment_cache hex_digest encoded "def" experiment one_entry).1
unfolding save_experiment_cache write_cache prune cache_names total_from prune_from size_of io
    lookup insert erase names sort_names insert_name hex_digest encoded
save_experiment_cache-IsSaved_example =
    save_experiment_cache-IsSaved hex_digest encoded "def" experiment one_entry (refl, tt) refl refl

load_experiment_cache-save_experiment_cache_example :
    (load_experiment_cache hex_digest "def"
      (record ((save_experiment_cache hex_digest encoded "def" experiment one_entry).1) {
        faults = [];
      })).0
    ≡ ok (some experiment)
unfolding save_experiment_cache write_cache prune cache_names total_from prune_from size_of io
    lookup insert erase names sort_names insert_name hex_digest encoded
load_experiment_cache-save_experiment_cache_example =
    load_experiment_cache-save_experiment_cache hex_digest encoded "def" experiment experiment
      stored_file one_entry refl refl (refl, tt) refl refl
