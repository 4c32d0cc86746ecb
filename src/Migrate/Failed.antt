-- ===== src/Migrate/Failed.antt =====
-- A run of ApplyMigrations of internal/db/migrate.go that fails.
use agent_state.Common.{String, ◌≡◌, refl, ◌⊎◌, inl, inr, Bool, Option, none, some, subst}
use agent_state.Errors.{Result, ok, err, Err, external}
use agent_state.Migrate.{
  Files, SchemaState, SchemaDriver, Migration, after, failing, counted_call, answered_call,
  migrate_tx, end_tx, committed, apply_migrations,
}

-- An error leaves the recorded versions and the schema of `s`, or is the database's, not wrapped.
abbrev Unharmed : {S : Type 0} → SchemaState S → Result (Unit {0}) × SchemaState S → Type 0
Unharmed s (ok u, t) = Unit
Unharmed s (err e, t) =
    ((t.versions ≡ s.versions) × (t.schema ≡ s.schema)) ⊎ ((m : String) × (e ≡ external m))

module _ {S : Type 0} (d : SchemaDriver S) (files : Files) (s₀ : SchemaState S) where
  committed-Unharmed :
      (o : Option String) (applied : Bool) (s : SchemaState S)
      → Unharmed s₀ (committed s₀ o applied s)
  committed-Unharmed none applied s = tt
  committed-Unharmed (some m) applied s = inr (m, refl)

  end_tx-Unharmed : (r : Result (Unit {0}) × SchemaState S) → Unharmed s₀ (end_tx d files s₀ r)
  end_tx-Unharmed (ok u, s) =
      committed-Unharmed (d.fault s.calls) (d.commit_applies s.calls) (counted_call s)
  end_tx-Unharmed (err e, s) = inl (refl, refl)

  begun-Unharmed :
      (o : Option String) (s : SchemaState S) (next : Migration S (Unit {0}))
      → (s.versions ≡ s₀.versions) × (s.schema ≡ s₀.schema)
      → ((t : SchemaState S) → Unharmed s₀ (next t))
      → Unharmed s₀ (after (λ u. next) (answered_call o (ok (tt, s)) s))
  begun-Unharmed none s next same h = h s
  begun-Unharmed (some m) s next same h = inl same

  acquired-Unharmed :
      (text : String) (o : Option String) (s : SchemaState S) (next : Migration S (Unit {0}))
      → (s.versions ≡ s₀.versions) × (s.schema ≡ s₀.schema)
      → Unharmed s₀ (next s)
      → Unharmed s₀ (after (λ u. next) (failing text (answered_call o (ok (tt, s)) s)))
  acquired-Unharmed text none s next same h = h
  acquired-Unharmed text (some m) s next same h = inl same

  run-Unharmed : Unharmed s₀ (apply_migrations d files s₀)
  unfolding apply_migrations
  run-Unharmed =
      let s₁ = counted_call s₀ in
      acquired-Unharmed "acquire connection" (d.fault s₀.calls) s₁ _ (refl, refl)
        (begun-Unharmed (d.fault s₁.calls) (counted_call s₁)
          (λ s₂. end_tx d files s₀ (migrate_tx d files s₂)) (refl, refl)
          (λ t. end_tx-Unharmed (migrate_tx d files t)))

-- A run of ApplyMigrations that fails leaves the recorded versions and the schema as they were, also
-- where some files had been applied, or its error is one that the database gave, not wrapped.
pub apply_migrations-failed :
    {S : Type 0} (d : SchemaDriver S) (files : Files) (s : SchemaState S) {e : Err}
    {s' : SchemaState S}
    → apply_migrations d files s ≡ (err e, s')
    → ((s'.versions ≡ s.versions) × (s'.schema ≡ s.schema)) ⊎ ((m : String) × (e ≡ external m))
apply_migrations-failed d files s h = subst (Unharmed s) h (run-Unharmed d files s)
