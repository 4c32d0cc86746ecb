-- ===== src/Migrate.antt =====
-- internal/db/migrate.go: the files of migrations/ applied once each, in one transaction. What the
-- SQL of a file does to the rest of the schema is a parameter, and so are the embedded files.
pub mod Applied
pub mod Once
pub mod Failed
use agent_state.Common.{
  suc, ℕ, String, Bool, true, false, Option, none, some, List, [], ◌∷◌, ◌++◌, if◌then◌else◌,
}
use text.Mathlib.Text.{◌==◌ as str_eq}
use Prim.Native.String.{◌++◌ as ◌++ᵗ◌}
use agent_state.Errors.{Result, ok, err, external, wrap}
use agent_state.Message.Columns.{Bytes}
use agent_state.Message.Digest.{leb_text}

pub record DirEntry : Type 0 where
  pub name : String
  pub is_dir : Bool

-- fs.ReadDir and ReadFile of the embedded directory
pub record Files : Type 0 where
  pub read_dir : Result (List DirEntry)
  pub read_file : String → Result Bytes

-- The table schema_migrations, if there is one, and the rest of the database, with a counter of the
-- calls made of it.
pub record SchemaState (S : Type 0) : Type 0 where
  pub versions : Option (List String)
  pub schema : S
  pub calls : ℕ

-- Which calls the database refuses, whether a commit that reports an error took effect, and what the
-- SQL of a file does.
pub record SchemaDriver (S : Type 0) : Type 0 where
  pub fault : ℕ → Option String
  pub commit_applies : ℕ → Bool
  pub run_sql : Bytes → S → Result S

-- `sort.Slice` by name
unfoldable pub insert_entry : DirEntry → List DirEntry → List DirEntry
insert_entry e [] = e ∷ []
insert_entry e (f ∷ fs) = if leb_text e.name f.name then e ∷ f ∷ fs else f ∷ insert_entry e fs

unfoldable pub sort_entries : List DirEntry → List DirEntry
unfolding insert_entry
sort_entries [] = []
sort_entries (e ∷ es) = insert_entry e (sort_entries es)

abbrev pub has_version : String → List String → Bool
has_version v [] = false
has_version v (x ∷ xs) = if str_eq x v then true else has_version v xs

abbrev pub Migration : Type 0 → Type 0 → Type 0
Migration S A = SchemaState S → Result A × SchemaState S

abbrev missing_table : {A : Type 0} → Result A
missing_table = err (external "relation schema_migrations does not exist")

module _ {S : Type 0} where
  abbrev pub after :
      {A B : Type 0} → (A → Migration S B) → Result A × SchemaState S → Result B × SchemaState S
  after f (ok a, s) = f a s
  after f (err e, s) = (err e, s)

  -- `if err != nil { return fmt.Errorf("text: %w", err) }`
  abbrev pub failing : {A : Type 0} → String → Result A × SchemaState S → Result A × SchemaState S
  failing text (ok a, s) = (ok a, s)
  failing text (err e, s) = (err (wrap text e), s)

  abbrev pub counted_call : SchemaState S → SchemaState S
  counted_call s = record s { calls = suc s.calls }

  abbrev pub answered_call :
      {A : Type 0}
      → Option String
      → Result (A × SchemaState S)
      → SchemaState S
      → Result A × SchemaState S
  answered_call none (ok (a, t)) s = (ok a, t)
  answered_call none (err e) s = (err e, s)
  answered_call (some m) r s = (err (external m), s)

  -- CREATE TABLE IF NOT EXISTS schema_migrations
  abbrev pub ensure_versions : SchemaState S → Result (Unit {0} × SchemaState S)
  ensure_versions s = elim s.versions [
    | none ↦ ok (tt, record s { versions = some [] })
    | some vs ↦ ok (tt, s)
  ]

  -- SELECT EXISTS (SELECT 1 FROM schema_migrations WHERE version = $1)
  abbrev pub select_version : String → SchemaState S → Result (Bool × SchemaState S)
  select_version v s = elim s.versions [ none ↦ missing_table | some vs ↦ ok (has_version v vs, s) ]

  -- INSERT INTO schema_migrations (version) VALUES ($1)
  abbrev pub insert_version : String → SchemaState S → Result (Unit {0} × SchemaState S)
  insert_version v s = elim s.versions [
    | none ↦ missing_table
    | some vs ↦
        if has_version v vs
        then err (external "duplicate key: schema_migrations_pkey")
        else ok (tt, record s { versions = some (vs ++ v ∷ []) })
  ]

  -- The outcome of a commit.
  abbrev pub committed :
      SchemaState S → Option String → Bool → SchemaState S → Result (Unit {0}) × SchemaState S
  committed s₀ none applied s = (ok tt, s)
  committed s₀ (some m) applied s =
      (err (external m), if applied then s else record s₀ { calls = s.calls })

  module _ (d : SchemaDriver S) where
    abbrev pub call : {A : Type 0} → (SchemaState S → Result (A × SchemaState S)) → Migration S A
    call body s = answered_call (d.fault s.calls) (body (counted_call s)) (counted_call s)

    -- tx.Exec of a file
    abbrev pub exec_file : Bytes → SchemaState S → Result (Unit {0} × SchemaState S)
    exec_file content s = elim (d.run_sql content s.schema) [
      | ok schema ↦ ok (tt, record s { schema = schema })
      | err e ↦ err e
    ]

module _ {S : Type 0} (d : SchemaDriver S) (files : Files) where
  -- What the loop does with a file that is not applied.
  abbrev pub apply_file : String → Migration S (Unit {0})
  apply_file version s =
      after
        (λ content s₁.
          after
            (λ u s₂. failing ("record migration " ++ᵗ version) (call d (insert_version version) s₂))
            (failing ("apply migration " ++ᵗ version) (call d (exec_file d content) s₁)))
        (failing ("read migration " ++ᵗ version) (files.read_file version, s))

  -- The loop, and its body for a file: `rest` is what follows.
  abbrev pub apply_unless : String → Migration S (Unit {0}) → Bool → Migration S (Unit {0})
  apply_unless version rest true s = rest s
  apply_unless version rest false s = after (λ u. rest) (apply_file version s)

  abbrev pub apply_entry : DirEntry → Migration S (Unit {0}) → Migration S (Unit {0})
  apply_entry e rest s =
      if e.is_dir
      then rest s
      else after (apply_unless e.name rest)
          (failing ("check migration " ++ᵗ e.name) (call d (select_version e.name) s))

  unfoldable pub apply_each : List DirEntry → Migration S (Unit {0})
  apply_each [] s = (ok tt, s)
  apply_each (e ∷ es) s = apply_entry e (apply_each es) s

  -- The function that runs in the transaction.
  unfoldable pub migrate_tx : Migration S (Unit {0})
  unfolding sort_entries apply_each
  migrate_tx s =
      after
        (λ u s₁.
          after (λ entries. apply_each (sort_entries entries))
            (failing "read migrations" (files.read_dir, s₁)))
        (failing "ensure schema_migrations" (call d ensure_versions s))

  -- pgx.BeginFunc after the begin: a commit, or a rollback to the state `s₀`.
  abbrev pub end_tx :
      SchemaState S → Result (Unit {0}) × SchemaState S → Result (Unit {0}) × SchemaState S
  end_tx s₀ (ok u, s) = committed s₀ (d.fault s.calls) (d.commit_applies s.calls) (counted_call s)
  end_tx s₀ (err e, s) = (err e, record s₀ { calls = suc s.calls })

  -- `ApplyMigrations`
  unfoldable pub apply_migrations : Migration S (Unit {0})
  unfolding migrate_tx
  apply_migrations s =
      after (λ u s₁. after (λ v s₂. end_tx s (migrate_tx s₂)) (call d (λ t. ok (tt, t)) s₁))
        (failing "acquire connection" (call d (λ t. ok (tt, t)) s))
