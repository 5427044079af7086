-- ===== src/Store/Schema.antt =====
-- `initialize` of internal/store/store.go: the directories and the schema version of a store. A
-- version below 1 has no migration; it is 0 here.
use worldbisect.Prelude.{
  ℕ, zero, suc, ◌≤◌, String, ◌≡◌, Bool, true, false, List, [], ◌∷◌, ltb, arith, if◌then◌else◌,
  Bool-cases, inl, inr,
}
use worldbisect.Prelude.Exec.{ok, err, Exec, pure, fail, ◌>>=◌, ◌>>◌, Ensures, Ensures-bind}
use worldbisect.Store.JobFiles.{current_schema_version}

pub data SchemaError : Type 0 where
  io_failed undecodable : SchemaError
  newer : ℕ → SchemaError
  no_migration : ℕ → SchemaError

-- schema.json; `undecoded` is a file that is not such a document.
pub data SchemaFile : Type 0 where
  missing undecoded : SchemaFile
  version : ℕ → SchemaFile

pub record Root : Type 0 where
  pub directories : List String
  pub schema : SchemaFile
  pub faults : List Bool

abbrev pub Setup : Type 0 → Type 0
Setup A = Exec Root SchemaError A

unfoldable pub call : Setup (Unit {0})
call d = elim d.faults [
  | [] ↦ (ok tt, d)
  | true ∷ rest ↦ (err io_failed, record d { faults = rest })
  | false ∷ rest ↦ (ok tt, record d { faults = rest })
]

-- The loops over `os.MkdirAll`.
unfoldable pub make_directories : List String → Setup (Unit {0})
unfolding call
make_directories [] = pure tt
make_directories (name ∷ rest) = do
  call
  λ d. (ok tt, record d { directories = name ∷ d.directories })
  make_directories rest

unfoldable pub write_schema : ℕ → Setup (Unit {0})
write_schema n = do call; λ d. (ok tt, record d { schema = version n })

unfoldable pub read_schema : Setup SchemaFile
read_schema = do call; λ d. (ok d.schema, d)

unfoldable pub migrate_v1_to_v2 : Setup (Unit {0})
unfolding make_directories
migrate_v1_to_v2 = make_directories ("analyses" ∷ [])

unfoldable pub migrate_v2_to_v3 : Setup (Unit {0})
unfolding make_directories
migrate_v2_to_v3 = make_directories ("jobs" ∷ "idempotency" ∷ "traces" ∷ [])

-- The loop over the migrations; version 3 is the current one.
unfoldable pub migrate : ℕ → Setup (Unit {0})
unfolding migrate_v1_to_v2 migrate_v2_to_v3 write_schema
migrate zero = fail (no_migration 0)
migrate (suc zero) = do migrate_v1_to_v2; write_schema 2; migrate_v2_to_v3; write_schema 3
migrate (suc (suc zero)) = do migrate_v2_to_v3; write_schema 3
migrate (suc (suc (suc n))) = pure tt

abbrev pub upgrade : SchemaFile → Setup (Unit {0})
upgrade missing = write_schema current_schema_version
upgrade undecoded = fail undecodable
upgrade (version n) = if ltb current_schema_version n then fail (newer n) else migrate n

abbrev pub store_directories : List String
store_directories =
    "captures" ∷ "analyses" ∷ "jobs" ∷ "idempotency" ∷ "experiment-cache" ∷ "blobs/sha256" ∷ "audit"
    ∷ "keys" ∷ "traces" ∷ []

unfoldable pub initialize : Setup (Unit {0})
unfolding make_directories read_schema write_schema migrate
initialize = do make_directories store_directories; file ← read_schema; upgrade file

abbrev AtCurrent : Unit {0} → Root → Type 0
AtCurrent u d = d.schema ≡ version current_schema_version

write_schema-AtCurrent : (d : Root) → Ensures (write_schema 3) d AtCurrent
unfolding write_schema call
write_schema-AtCurrent d u h = ground arith

then_write : (m : Setup (Unit {0})) (d : Root) → Ensures (m >> write_schema 3) d AtCurrent
then_write m d = Ensures-bind m (λ _. write_schema 3) d AtCurrent (λ u h. write_schema-AtCurrent _)

migrate-AtCurrent :
    (n : ℕ) (d : Root) → n ≤ 3 → d.schema ≡ version n → Ensures (migrate n) d AtCurrent
unfolding migrate
migrate-AtCurrent zero d le same = λ u h. cc
migrate-AtCurrent (suc zero) d le same =
    Ensures-bind migrate_v1_to_v2 (λ _. write_schema 2 >> (migrate_v2_to_v3 >> write_schema 3)) d
      AtCurrent
      (λ u h.
        Ensures-bind (write_schema 2) (λ _. migrate_v2_to_v3 >> write_schema 3)
          (migrate_v1_to_v2 d).1 AtCurrent
          (λ v k. then_write migrate_v2_to_v3 (write_schema 2 (migrate_v1_to_v2 d).1).1))
migrate-AtCurrent (suc (suc zero)) d le same = then_write migrate_v2_to_v3 d
migrate-AtCurrent (suc (suc (suc n))) d le same = λ u h. ground (arith, same)

upgrade-AtCurrent : (f : SchemaFile) (d : Root) → d.schema ≡ f → Ensures (upgrade f) d AtCurrent
upgrade-AtCurrent missing d same = write_schema-AtCurrent d
upgrade-AtCurrent undecoded d same = λ u h. cc
upgrade-AtCurrent (version n) d same = elim (Bool-cases (ltb current_schema_version n)) [
  | inl p ↦ rw p (λ u h. cc)
  | inr p ↦ rw p (migrate-AtCurrent n d (ground arith) same)
]

read_schema-same :
    (d : Root) (f : SchemaFile) → (read_schema d).0 ≡ ok f → (read_schema d).1.schema ≡ f
unfolding read_schema call
read_schema-same d f h = ground arith

-- When the store opens without an error, its schema file says the current version: a new store is
-- written with it, an older one is migrated to it, and a newer one is refused.
pub initialize-AtCurrent :
    (d : Root) → (initialize d).0 ≡ ok tt → (initialize d).1.schema ≡ version current_schema_version
unfolding initialize
initialize-AtCurrent d h =
    let d1 = (make_directories store_directories d).1 in
    Ensures-bind (make_directories store_directories) (λ _. read_schema >>= upgrade) d AtCurrent
      (λ u k.
        Ensures-bind read_schema upgrade d1 AtCurrent
          (λ f found. upgrade-AtCurrent f (read_schema d1).1 (read_schema-same d1 f found)))
      tt h
