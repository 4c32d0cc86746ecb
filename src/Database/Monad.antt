-- ===== src/Database/Monad.antt =====
-- Calls of the database: each may be refused, and what was written before an error stays written
-- until the transaction ends. `runTx` of internal/state/store.go.
use agent_state.Common.{suc, String, Bool, Option, none, some, if◌then◌else◌}
use agent_state.Errors.{Uuid, Result, ok, err, Err, external, wrap}
use agent_state.Message.{Time}
use agent_state.Database.{Tables, World, Driver}

abbrev pub Db {ℓ} : Type ℓ → Type ℓ
Db A = World → Result A × World

abbrev pub continue {ℓ κ} :
    {A : Type ℓ} {B : Type κ} → (A → Db B) → Result A × World → Result B × World
continue f (ok a, w) = f a w
continue f (err e, w) = (err e, w)

infixl 5 ◌>>=◌ ◌>>◌
abbrev pub ◌>>=◌ {ℓ κ} : {A : Type ℓ} {B : Type κ} → Db A → (A → Db B) → Db B
◌>>=◌ m f w = continue f (m w)

abbrev pub ◌>>◌ {ℓ κ} : {A : Type ℓ} {B : Type κ} → Db A → Db B → Db B
m >> k = m >>= λ _. k

module _ {ℓ} {A : Type ℓ} where
  abbrev pub pure : A → Db A
  pure a w = (ok a, w)

  abbrev pub raise : Err → Db A
  raise e w = (err e, w)

  abbrev pub lift : Result A → Db A
  lift r w = (r, w)

  -- `return fmt.Errorf("text: %w", err)` after a call
  abbrev pub rewrap : String → Result A × World → Result A × World
  rewrap text (ok a, w) = (ok a, w)
  rewrap text (err e, w) = (err (wrap text e), w)

  abbrev pub wrapped : String → Db A → Db A
  wrapped text m w = rewrap text (m w)

abbrev pub tick : World → World
tick w = record w { calls = suc w.calls }

-- The answer to a call that the database may refuse.
abbrev pub answer {ℓ} : {A : Type ℓ} → Option String → Db A → Db A
answer none body w = body w
answer (some m) body w = (err (external m), w)

module _ (d : Driver) where
  abbrev pub statement {ℓ} : {A : Type ℓ} → Db A → Db A
  statement body w = answer (d.fault w.calls) body (tick w)

  -- A SELECT.
  abbrev pub query {ℓ} : {A : Type ℓ} → (Tables → Result A) → Db A
  query select = statement (λ w. (select w.tables, w))

  -- What an INSERT, UPDATE or DELETE returns and writes.
  abbrev pub written {ℓ} : {A : Type ℓ} → Result (A × Tables) → Db A
  written (ok (a, t)) w = (ok a, record w { tables = t })
  written (err e) w = (err e, w)

  abbrev pub modify {ℓ} : {A : Type ℓ} → (Tables → Result (A × Tables)) → Db A
  modify change = statement (λ w. written (change w.tables) w)

  -- uuid.New()
  abbrev pub new_uuid : Db Uuid
  new_uuid w = (ok (d.new_uuid w.calls), tick w)

  abbrev pub rollback : Tables → World → World
  rollback t w = record w { tables = t }

  -- tx.Commit, after the body returned: refused, it has taken effect or it has not.
  abbrev pub commit {ℓ} :
      {A : Type ℓ} → Tables → A → Option String → Bool → World → Result A × World
  commit t a none applied w = (ok a, w)
  commit t a (some m) applied w = (err (external m), if applied then w else rollback t w)

  abbrev pub finish {ℓ} : {A : Type ℓ} → Tables → Result A × World → Result A × World
  finish t (ok a, w) = commit t a (d.fault w.calls) (d.commit_applies w.calls) (tick w)
  finish t (err e, w) = (err e, rollback t (tick w))

  -- The body is handed NOW(), which is the time at which the transaction began.
  abbrev pub begun {ℓ} : {A : Type ℓ} → Option String → (Time → Db A) → Db A
  begun (some m) body w = (err (external m), tick w)
  begun none body w = finish w.tables (body (d.now w.calls) (tick w))

  unfoldable pub run_tx {ℓ} : {A : Type ℓ} → (Time → Db A) → Db A
  run_tx body w = begun (d.fault w.calls) body w
