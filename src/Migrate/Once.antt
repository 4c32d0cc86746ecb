-- ===== src/Migrate/Once.antt =====
-- A second run of ApplyMigrations of internal/db/migrate.go.
use agent_state.Common.{
  ℕ, suc, String, ◌≡◌, refl, sym, ap, ◌∙◌, subst, Bool, Option, none, some, List, [], arith,
}
use agent_state.Errors.{Result, ok, err}
use agent_state.Migrate.{
  DirEntry, Files, SchemaState, SchemaDriver, failing, counted_call, call, ensure_versions,
  apply_each, migrate_tx, end_tx, committed, apply_migrations, sort_entries,
}
use agent_state.Migrate.Applied.{
  migrated, AllRecorded, after-eq-ok, failing-eq-ok, call-eq-ok, pair_same, apply_each-idle,
  apply_each-Recorded,
}

module _ {S : Type 0} (d : SchemaDriver S) (files : Files) where
  ensure_versions-some :
      (o : Option (List String)) (x : S) (n : ℕ) {u : Unit {0}} {t : SchemaState S}
      → ensure_versions (record { versions = o; schema = x; calls = n }) ≡ ok (u, t)
      → (vs : List String) × (t ≡ migrated vs x n)
  ensure_versions-some none x n h = ([], ground arith)
  ensure_versions-some (some vs) x n h = (vs, ground arith)

  committed-eq-ok :
      (s₀ : SchemaState S) (o : Option String) (applied : Bool) (s : SchemaState S)
      {s' : SchemaState S}
      → committed s₀ o applied s ≡ (ok tt, s')
      → s' ≡ s
  committed-eq-ok s₀ none applied s h = ground arith
  committed-eq-ok s₀ (some m) applied s h = ground arith

  end_tx-eq-ok :
      (s₀ : SchemaState S) (r : Result (Unit {0}) × SchemaState S) {s' : SchemaState S}
      → end_tx d files s₀ r ≡ (ok tt, s')
      → (s : SchemaState S) × (r ≡ (ok tt, s)) × (s' ≡ counted_call s)
  end_tx-eq-ok s₀ (ok u, s) h =
      (s, refl, committed-eq-ok s₀ (d.fault s.calls) (d.commit_applies s.calls) (counted_call s) h)
  end_tx-eq-ok s₀ (err e, s) h = ground arith

  -- A state in which every file is recorded.
  abbrev Complete : SchemaState S → Type 0
  Complete s =
      (entries : List DirEntry) × (vs : List String) × (x : S) × (n : ℕ) × (files.read_dir
        ≡ ok entries)
      × (s ≡ migrated vs x n)
      × AllRecorded (sort_entries entries) vs

  migrate_tx-Complete :
      (s : SchemaState S) {s' : SchemaState S} → migrate_tx d files s ≡ (ok tt, s') → Complete s'
  unfolding migrate_tx
  migrate_tx-Complete s {s'} h =
      let ensure = call d ensure_versions s in
      let (u, s₁, p₁, h₁) = after-eq-ok _ (failing "ensure schema_migrations" ensure) h in
      let (entries, s₂, p₂, h₂) =
        after-eq-ok _ (failing "read migrations" (files.read_dir, s₁)) h₁ in
      let (vs, at_vs) =
        ensure_versions-some s.versions s.schema (suc s.calls)
          (call-eq-ok d ensure_versions s (failing-eq-ok _ ensure p₁)) in
      let (read, same) = pair_same (failing-eq-ok _ (files.read_dir, s₁) p₂) in
      let (ws, y, m, made, all, keeps) =
        apply_each-Recorded d files (sort_entries entries) vs s.schema (suc s.calls) (
          subst (λ z. apply_each d files (sort_entries entries) z ≡ (ok tt, s')) (sym same ∙ at_vs)
            h₂) in
      (entries, ws, y, m, read, made, all)

  apply_migrations-Complete :
      (s : SchemaState S) {s' : SchemaState S}
      → apply_migrations d files s ≡ (ok tt, s')
      → Complete s'
  unfolding apply_migrations
  apply_migrations-Complete s {s'} h =
      let acquire = call d (λ t. ok (tt, t)) s in
      let (u, s₁, p₁, h₁) = after-eq-ok _ (failing "acquire connection" acquire) h in
      let (v, s₂, p₂, h₂) = after-eq-ok _ (call d (λ t. ok (tt, t)) s₁) h₁ in
      let (s₃, body, end) = end_tx-eq-ok s (migrate_tx d files s₂) h₂ in
      let (entries, vs, x, n, read, same, all) = migrate_tx-Complete s₂ body in
      (entries, vs, x, suc n, read, end ∙ ap counted_call same, all)

  idle_run :
      ((n : ℕ) → d.fault n ≡ none)
      → (entries : List DirEntry) (vs : List String) (x : S) (n m : ℕ) → files.read_dir ≡ ok entries
      → apply_each d files (sort_entries entries) (migrated vs x (suc (suc (suc n))))
        ≡ (ok tt, migrated vs x m)
      → apply_migrations d files (migrated vs x n) ≡ (ok tt, migrated vs x (suc m))
  unfolding apply_migrations migrate_tx
  idle_run quiet entries vs x n m read rest =
      rw (quiet n, quiet (suc n), quiet (suc (suc n)), read) (rw rest (rw (quiet m) refl))

  apply_migrations-idle :
      ((n : ℕ) → d.fault n ≡ none)
      → (entries : List DirEntry) (vs : List String) (x : S) (n : ℕ) → files.read_dir ≡ ok entries
      → AllRecorded (sort_entries entries) vs
      → (m : ℕ) × (apply_migrations d files (migrated vs x n) ≡ (ok tt, migrated vs x m))
  apply_migrations-idle quiet entries vs x n read all =
      let sorted = sort_entries entries in
      let (m, rest) = apply_each-idle d files quiet sorted vs x (suc (suc (suc n))) all in
      (suc m, idle_run quiet entries vs x n m read rest)

-- A run of ApplyMigrations that returns has recorded every file: a later run, none of whose calls is
-- refused, returns and changes nothing, neither the recorded versions nor the schema.
pub apply_migrations-once :
    {S : Type 0} (d later : SchemaDriver S) (files : Files) (s : SchemaState S) {s' : SchemaState S}
    → ((n : ℕ) → later.fault n ≡ none)
    → apply_migrations d files s ≡ (ok tt, s')
    → (m : ℕ) × (apply_migrations later files s' ≡ (ok tt, record s' { calls = m }))
apply_migrations-once d later files s {s'} quiet h =
    let (entries, vs, x, n, read, same, all) = apply_migrations-Complete d files s h in
    let (m, done) = apply_migrations-idle later files quiet entries vs x n read all in
    (
      m,
      subst (λ z. apply_migrations later files z ≡ (ok tt, record z { calls = m })) (sym same) done,
    )
