-- ===== src/Migrate/Applied.antt =====
-- What ApplyMigrations of internal/db/migrate.go leaves, and that it does nothing a second time.
use agent_state.Common.{
  ℕ, suc, String, ◌≡◌, refl, sym, ap, subst, Bool, true, false, Option, none, some, List, [], ◌∷◌,
  ◌++◌, All, arith, Bool-cases, inl, inr, ◌⊎◌,
}
use text.Mathlib.TextPositions.{eq_refl}
use Prim.Native.String.{◌++◌ as ◌++ᵗ◌}
use agent_state.Errors.{Result, ok, err, ok-injective}
use agent_state.Message.Columns.{Bytes}
use agent_state.Migrate.{
  DirEntry, Files, SchemaState, SchemaDriver, Migration, has_version, after, failing, counted_call,
  answered_call, call, select_version, insert_version, exec_file, apply_file, apply_unless,
  apply_each,
}

-- The version of each file is recorded.
abbrev pub AllRecorded : List DirEntry → List String → Type 0
AllRecorded es vs = All (λ e. (e.is_dir ≡ true) ⊎ (has_version e.name vs ≡ true)) es

-- The table schema_migrations with these versions.
abbrev pub migrated : {S : Type 0} → List String → S → ℕ → SchemaState S
migrated vs x n = record { versions = some vs; schema = x; calls = n }

module _ {S A B : Type 0} where
  pub after-eq-ok :
      (f : A → Migration S B) (r : Result A × SchemaState S) {b : B} {s' : SchemaState S}
      → after f r ≡ (ok b, s')
      → (a : A) × (s : SchemaState S) × (r ≡ (ok a, s)) × (f a s ≡ (ok b, s'))
  after-eq-ok f (ok a, s) h = (a, s, refl, h)
  after-eq-ok f (err e, s) h = ground arith

module _ {S A : Type 0} where
  pub pair_same :
      {r r' : Result A} {s s' : SchemaState S}
      → ◌≡◌ {A = Result A × SchemaState S} (r, s) (r', s')
      → (r ≡ r') × (s ≡ s')
  pair_same h = (ap (λ z. z.0) h, ap (λ z. z.1) h)

  pub failing-eq-ok :
      (text : String) (r : Result A × SchemaState S) {a : A} {s : SchemaState S}
      → failing text r ≡ (ok a, s)
      → r ≡ (ok a, s)
  failing-eq-ok text (ok a, s) h = h
  failing-eq-ok text (err e, s) h = ground arith

  answered_call-eq-ok :
      (o : Option String) (r : Result (A × SchemaState S)) (s : SchemaState S) {a : A}
      {s' : SchemaState S}
      → answered_call o r s ≡ (ok a, s')
      → r ≡ ok (a, s')
  answered_call-eq-ok none (ok (a, t)) s h = ground arith
  answered_call-eq-ok none (err e) s h = ground arith
  answered_call-eq-ok (some m) r s h = ground arith

  pub call-eq-ok :
      (d : SchemaDriver S) (body : SchemaState S → Result (A × SchemaState S)) (s : SchemaState S)
      {a : A} {s' : SchemaState S}
      → call d body s ≡ (ok a, s')
      → body (counted_call s) ≡ ok (a, s')
  call-eq-ok d body s h = answered_call-eq-ok (d.fault s.calls) (body (counted_call s)) _ h

has_version-snoc :
    (v x : String) (vs : List String)
    → has_version v vs ≡ true
    → has_version v (vs ++ x ∷ []) ≡ true
has_version-snoc v x [] h = cc
has_version-snoc v x (y ∷ ys) h = ground (arith, has_version-snoc v x ys)

has_version-last : (v : String) (vs : List String) → has_version v (vs ++ v ∷ []) ≡ true
has_version-last v [] = rw (eq_refl v) refl
has_version-last v (y ∷ ys) = ground (arith, has_version-last v ys)

module _ {S : Type 0} (d : SchemaDriver S) (files : Files) where
  -- Where each file is recorded and no call is refused, the loop only asks.
  pub apply_each-idle :
      ((n : ℕ) → d.fault n ≡ none)
      → (es : List DirEntry) (vs : List String) (x : S) (n : ℕ) → AllRecorded es vs
      → (m : ℕ) × (apply_each d files es (migrated vs x n) ≡ (ok tt, migrated vs x m))
  unfolding apply_each
  apply_each-idle quiet [] vs x n all = (n, refl)
  apply_each-idle quiet (e ∷ es) vs x n all = elim (Bool-cases e.is_dir) [
    | inl dir ↦ let (m, rest) = apply_each-idle quiet es vs x n all.1 in (m, rw dir rest)
    | inr file ↦
        let recorded : has_version e.name vs ≡ true = elim all.0 [
          | inl dir ↦ ground arith
          | inr yes_recorded ↦ yes_recorded
        ] in
        let (m, rest) = apply_each-idle quiet es vs x (suc n) all.1 in
        (m, rw (file, quiet n, recorded) rest)
  ]

  -- What a loop that returns leaves: all versions that were recorded, and that of each file.
  abbrev Recorded : List DirEntry → List String → SchemaState S → Type 0
  Recorded es vs s' =
      (vs' : List String) × (x' : S) × (m : ℕ) × (s' ≡ migrated vs' x' m)
      × AllRecorded es vs'
      × ((v : String) → has_version v vs ≡ true → has_version v vs' ≡ true)

  ran :
      {vs : List String} {n : ℕ} {s' : SchemaState S} (r : Result S)
      → ◌≡◌ {A = Result (Unit {0} × SchemaState S)}
          (elim r [ ok y ↦ ok (tt, migrated vs y n) | err e ↦ err e ])
          (ok (tt, s'))
      → (y : S) × (s' ≡ migrated vs y n)
  ran (ok y) h = (y, ground arith)
  ran (err e) h = ground arith

  -- A file that was executed, and a version that was recorded.
  executed :
      (content : Bytes) (vs : List String) (x : S) (n : ℕ) (s : SchemaState S) {u : Unit {0}}
      {s' : SchemaState S}
      → s ≡ migrated vs x n
      → call d (exec_file d content) s ≡ (ok u, s')
      → (y : S) × (s' ≡ migrated vs y (suc n))
  executed content vs x n s {u} {s'} same h = ran (d.run_sql content x) (
      subst (λ (z : SchemaState S). exec_file d content (counted_call z) ≡ ok (u, s')) same
        (call-eq-ok d (exec_file d content) s h))

  inserted :
      (version : String) (vs : List String) (x : S) (n : ℕ) (s : SchemaState S) {u : Unit {0}}
      {s' : SchemaState S}
      → s ≡ migrated vs x n
      → call d (insert_version version) s ≡ (ok u, s')
      → s' ≡ migrated (vs ++ version ∷ []) x (suc n)
  inserted version vs x n s {u} {s'} same h =
      let made =
        subst (λ (z : SchemaState S). insert_version version (counted_call z) ≡ ok (u, s')) same
          (call-eq-ok d (insert_version version) s h) in
      elim (Bool-cases (has_version version vs)) [
        | inl taken ↦ ground arith
        | inr fresh ↦ ground arith
      ]

  apply_file-eq-ok :
      (version : String) (vs : List String) (x : S) (n : ℕ) {s' : SchemaState S}
      → apply_file d files version (migrated vs x n) ≡ (ok tt, s')
      → (y : S) × (m : ℕ) × (s' ≡ migrated (vs ++ version ∷ []) y m)
  apply_file-eq-ok version vs x n h =
      let (content, s₁, p₁, h₁) =
        after-eq-ok _
          (failing ("read migration " ++ᵗ version) (files.read_file version, migrated vs x n)) h in
      let read = failing-eq-ok _ (files.read_file version, migrated vs x n) p₁ in
      let same : s₁ ≡ migrated vs x n = sym (pair_same read).1 in
      let (u, s₂, p₂, h₂) =
        after-eq-ok _ (failing ("apply migration " ++ᵗ version) (call d (exec_file d content) s₁))
          h₁ in
      let (y, at_y) =
        executed content vs x n s₁ same (failing-eq-ok _ (call d (exec_file d content) s₁) p₂) in
      (
        y,
        suc (suc n),
        inserted version vs y (suc n) s₂ at_y
            (failing-eq-ok _ (call d (insert_version version) s₂) h₂),
      )

  version_found :
      (version : String) (vs : List String) (x : S) (n : ℕ) {found : Bool} {s' : SchemaState S}
      → call d (select_version version) (migrated vs x n) ≡ (ok found, s')
      → (has_version version vs ≡ found) × (s' ≡ migrated vs x (suc n))
  version_found version vs x n {found} {s'} h =
      let e : ◌≡◌ {A = Bool × SchemaState S} (has_version version vs, migrated vs x (suc n))
          (found, s') =
        ok-injective (call-eq-ok d (select_version version) (migrated vs x n) h) in
      (ap (λ z. z.0) e, sym (ap (λ z. z.1) e))

  -- The rest of the loop, from a list that holds the version of the file before it.
  followed :
      (e : DirEntry) (es : List DirEntry) (vs more : List String) {s' : SchemaState S}
      → has_version e.name more ≡ true
      → ((v : String) → has_version v vs ≡ true → has_version v more ≡ true)
      → Recorded es more s'
      → Recorded (e ∷ es) vs s'
  followed e es vs more here kept (vs', x', m, same, all, keeps) =
      (vs', x', m, same, (inr (keeps e.name here), all), λ v p. keeps v (kept v p))

  -- The two ways of a file that is no directory.
  unless-Recorded :
      (e : DirEntry) (es : List DirEntry) (vs : List String) (x : S) (n : ℕ) (found : Bool)
      (s₁ : SchemaState S) {s' : SchemaState S}
      → ((vs : List String) (x : S) (n : ℕ)
          → apply_each d files es (migrated vs x n) ≡ (ok tt, s')
          → Recorded es vs s')
      → has_version e.name vs ≡ found
      → s₁ ≡ migrated vs x n
      → apply_unless d files e.name (apply_each d files es) found s₁ ≡ (ok tt, s')
      → Recorded (e ∷ es) vs s'
  unless-Recorded e es vs x n true s₁ {s'} rest recorded same h =
      followed e es vs vs recorded (λ v p. p)
        (rest vs x n (subst (λ z. apply_each d files es z ≡ (ok tt, s')) same h))
  unless-Recorded e es vs x n false s₁ {s'} rest fresh same h =
      let (u, s₂, p₂, h₂) =
        after-eq-ok (λ u. apply_each d files es) (apply_file d files e.name (migrated vs x n))
          (subst
            (λ z. after (λ u. apply_each d files es) (apply_file d files e.name z) ≡ (ok tt, s'))
            same h) in
      let (y, m, made) = apply_file-eq-ok e.name vs x n p₂ in
      let more = vs ++ e.name ∷ [] in
      followed e es vs more (has_version-last e.name vs) (λ v. has_version-snoc v e.name vs)
        (rest more y m (subst (λ z. apply_each d files es z ≡ (ok tt, s')) made h₂))

  pub apply_each-Recorded :
      (es : List DirEntry) (vs : List String) (x : S) (n : ℕ) {s' : SchemaState S}
      → apply_each d files es (migrated vs x n) ≡ (ok tt, s')
      → Recorded es vs s'
  unfolding apply_each
  apply_each-Recorded [] vs x n h = (vs, x, n, ground arith, tt, λ v p. p)
  apply_each-Recorded (e ∷ es) vs x n {s'} h = elim (Bool-cases e.is_dir) [
    | inl dir ↦
        let (vs', x', m, same, all, keeps) =
          apply_each-Recorded es vs x n {s' = s'} (rw dir at h) in
        (vs', x', m, same, (inl dir, all), keeps)
    | inr file ↦
        let ask = call d (select_version e.name) (migrated vs x n) in
        let (found, s₁, p₁, h₁) =
          after-eq-ok (apply_unless d files e.name (apply_each d files es))
            (failing ("check migration " ++ᵗ e.name) ask) {b = tt} {s' = s'} (rw file at h) in
        let (recorded, same) = version_found e.name vs x n (failing-eq-ok _ ask p₁) in
        unless-Recorded e es vs x (suc n) found s₁ (λ ws y m. apply_each-Recorded es ws y m)
          recorded same h₁
  ]
