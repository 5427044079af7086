-- ===== src/Samples/Upgrade.antt =====
-- A store of version 1 opened by `initialize` of internal/store/store.go.
use worldbisect.Prelude.{◌≡◌, refl, []}
use worldbisect.Store.JobFiles.{current_schema_version}
use worldbisect.Store.Schema.{
  Root, version, initialize, initialize-AtCurrent, make_directories, read_schema, write_schema,
  migrate, migrate_v1_to_v2, migrate_v2_to_v3, call,
}

abbrev old_store : Root
old_store = record { directories = []; schema = version 1; faults = [] }

initialize-AtCurrent_example : (initialize old_store).1.schema ≡ version current_schema_version
unfolding initialize make_directories read_schema write_schema migrate migrate_v1_to_v2
    migrate_v2_to_v3 call
initialize-AtCurrent_example = initialize-AtCurrent old_store refl
