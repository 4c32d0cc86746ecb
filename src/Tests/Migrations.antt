-- ===== src/Tests/Migrations.antt =====
-- Two migrations and a directory beside them; the schema is the list of the files that ran.
use agent_state.Common.{
  ℕ, String, ◌≡◌, ◌⊎◌, refl, none, some, List, [], ◌∷◌, ◌++◌, true, false, if◌then◌else◌,
}
use text.Mathlib.Text.{◌==◌ as str_eq}
use agent_state.Config.{from_env}
use agent_state.Errors.{ok, err, external, wrap}
use agent_state.Migrate.{
  Files, SchemaState, SchemaDriver, apply_migrations, migrate_tx, apply_each, sort_entries,
}
use agent_state.Migrate.Failed.{apply_migrations-failed}
use agent_state.Migrate.Once.{apply_migrations-once}

abbrev two_files : Files
two_files = record {
  read_dir = ok (
      record { name = "0002_next.sql"; is_dir = false }
      ∷ record { name = "old"; is_dir = true }
      ∷ record { name = "0001_init.sql"; is_dir = false }
      ∷ []);
  read_file = λ name. ok name;
}

abbrev willing : SchemaDriver (List String)
willing = record {
  fault = λ n. none;
  commit_applies = λ n. false;
  run_sql = λ content ran. ok (ran ++ content ∷ []);
}

abbrev new_database : SchemaState (List String)
new_database = record { versions = none; schema = []; calls = 0 }

abbrev migrated_database : SchemaState (List String)
migrated_database = record {
  versions = some ("0001_init.sql" ∷ "0002_next.sql" ∷ []);
  schema = "0001_init.sql" ∷ "0002_next.sql" ∷ [];
  calls = 10;
}

first_run : apply_migrations willing two_files new_database ≡ (ok tt, migrated_database)
unfolding apply_migrations migrate_tx apply_each sort_entries
first_run = refl

apply_migrations-once_example :
    (m : ℕ) × (apply_migrations willing two_files migrated_database
      ≡ (ok tt, record migrated_database { calls = m }))
apply_migrations-once_example =
    apply_migrations-once willing willing two_files new_database (λ n. refl) first_run

abbrev only_url : String → String
only_url name = if str_eq name "DATABASE_URL" then "postgres://" else ""

default_address :
    from_env only_url ≡ ok (record { grpc_address = ":50051"; database_url = "postgres://" })
unfolding from_env
default_address = refl

-- The SQL of the second file is refused.
abbrev half_willing : SchemaDriver (List String)
half_willing = record willing {
  run_sql = λ content ran.
      if str_eq content "0002_next.sql"
      then err (external "syntax error")
      else ok (ran ++ content ∷ []);
}

abbrev after_failure : SchemaState (List String)
after_failure = (apply_migrations half_willing two_files new_database).1

apply_migrations-failed_example :
    ((after_failure.versions ≡ none) × (after_failure.schema ≡ []))
    ⊎ ((m : String) × (wrap "apply migration 0002_next.sql" (external "syntax error") ≡ external m))
unfolding apply_migrations migrate_tx apply_each sort_entries
apply_migrations-failed_example = apply_migrations-failed half_willing two_files new_database refl
