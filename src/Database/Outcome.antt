-- ===== src/Database/Outcome.antt =====
-- What a call that returned must have done: the inversion of each way to build one.
use agent_state.Common.{String, ◌≡◌, ◌∙◌, sym, refl, Option, none, some, arith}
use agent_state.Errors.{Result, ok, err}
use agent_state.Message.{Time}
use agent_state.Database.{Tables, World, Driver}
use agent_state.Database.Monad.{
  Db, ◌>>=◌, continue, wrapped, lift, tick, statement, query, modify, run_tx, written, finish,
  begun,
}

-- A pair's parts.
pub pair_eq {ℓ κ} :
    {A : Type ℓ} {B : Type κ} {a a' : A} {b b' : B}
    → ◌≡◌ {A = A × B} (a, b) (a', b')
    → (a ≡ a') × (b ≡ b')
pair_eq e = (λ i. (e i).0, λ i. (e i).1)

module _ {ℓ κ} {A : Type ℓ} {B : Type κ} where
  continue-eq-ok :
      (f : A → Db B) (r : Result A × World) {b : B} {w' : World}
      → continue f r ≡ (ok b, w')
      → (a : A) × (w₁ : World) × (r ≡ (ok a, w₁)) × (f a w₁ ≡ (ok b, w'))
  continue-eq-ok f (ok a, w₁) h = (a, w₁, refl, h)
  continue-eq-ok f (err e, w₁) h = ground arith

  pub >>=-eq-ok :
      (m : Db A) (f : A → Db B) (w : World) {b : B} {w' : World}
      → (m >>= f) w ≡ (ok b, w')
      → (a : A) × (w₁ : World) × (m w ≡ (ok a, w₁)) × (f a w₁ ≡ (ok b, w'))
  >>=-eq-ok m f w h = continue-eq-ok f (m w) h

module _ {ℓ} {A : Type ℓ} where
  pub lift-eq-ok :
      (r : Result A) (w : World) {a : A} {w' : World}
      → lift r w ≡ (ok a, w')
      → (r ≡ ok a) × (w' ≡ w)
  lift-eq-ok r w h = let p = pair_eq h in (p.0, sym p.1)

  pub wrapped-eq-ok :
      (text : String) (m : Db A) (w : World) {a : A} {w' : World}
      → wrapped text m w ≡ (ok a, w')
      → m w ≡ (ok a, w')
  wrapped-eq-ok text m w h = ground arith

module _ {ℓ} {A : Type ℓ} (d : Driver) where
  pub statement-eq-ok :
      (body : Db A) (w : World) {a : A} {w' : World}
      → statement d body w ≡ (ok a, w')
      → body (tick w) ≡ (ok a, w')
  statement-eq-ok body w h = ground arith

  pub query-eq-ok :
      (select : Tables → Result A) (w : World) {a : A} {w' : World}
      → query d select w ≡ (ok a, w')
      → (select w.tables ≡ ok a) × (w' ≡ tick w)
  query-eq-ok select w h = ground arith

  written-eq-ok :
      (r : Result (A × Tables)) (w : World) {a : A} {w' : World}
      → written d r w ≡ (ok a, w')
      → (t : Tables) × (r ≡ ok (a, t)) × (w' ≡ record w { tables = t })
  written-eq-ok (ok (a, t)) w h = let p = pair_eq h in (t, ground arith, sym p.1)
  written-eq-ok (err e) w h = ground arith

  pub modify-eq-ok :
      (change : Tables → Result (A × Tables)) (w : World) {a : A} {w' : World}
      → modify d change w ≡ (ok a, w')
      → (t : Tables) × (change w.tables ≡ ok (a, t)) × (w' ≡ record (tick w) { tables = t })
  modify-eq-ok change w h =
      written-eq-ok (change w.tables) (tick w)
        (statement-eq-ok (λ v. written d (change v.tables) v) w h)

  finish-eq-ok :
      (t : Tables) (r : Result A × World) {a : A} {w' : World}
      → finish d t r ≡ (ok a, w')
      → (w₁ : World) × (r ≡ (ok a, w₁)) × (w' ≡ tick w₁)
  finish-eq-ok t (ok a, w₁) h = (w₁, ground arith, ground arith)
  finish-eq-ok t (err e, w₁) h = ground arith

  begun-eq-ok :
      (o : Option String) (body : Time → Db A) (w : World) {a : A} {w' : World}
      → begun d o body w ≡ (ok a, w')
      → (w₁ : World) × (body (d.now w.calls) (tick w) ≡ (ok a, w₁)) × (w' ≡ tick w₁)
  begun-eq-ok none body w h = finish-eq-ok w.tables (body (d.now w.calls) (tick w)) h
  begun-eq-ok (some m) body w h = ground arith

  -- A transaction that returns ran its body to the end, on the tables that it began with.
  pub run_tx-eq-ok :
      (body : Time → Db A) (w : World) {a : A} {w' : World}
      → run_tx d body w ≡ (ok a, w')
      → (w₁ : World) × (body (d.now w.calls) (tick w) ≡ (ok a, w₁)) × (w' ≡ tick w₁)
  unfolding run_tx
  run_tx-eq-ok body w h = begun-eq-ok (d.fault w.calls) body w h

-- A part that writes nothing, whether it returns or raises.
pub record Reads {ℓ} {A : Type ℓ} (m : Db A) : Type ℓ where
  pub at : (w : World) → (m w).1.tables ≡ w.tables

module _ {ℓ κ} {A : Type ℓ} {B : Type κ} where
  continue-reads :
      (f : A → Db B) (r : Result A × World)
      → ((a : A) → (w : World) → (f a w).1.tables ≡ w.tables)
      → (continue f r).1.tables ≡ r.1.tables
  continue-reads f (ok a, w) h = h a w
  continue-reads f (err e, w) h = refl

  pub Reads-bind : (m : Db A) (f : A → Db B) → Reads m → ((a : A) → Reads (f a)) → Reads (m >>= f)
  Reads-bind m f km kf = record { at = λ w. continue-reads f (m w) (λ a. (kf a).at) ∙ km.at w }

module _ {ℓ} {A : Type ℓ} where
  pub Reads-lift : (r : Result A) → Reads (lift r)
  Reads-lift r = record { at = λ w. refl }

  pub Reads-wrapped : (text : String) (m : Db A) → Reads m → Reads (wrapped text m)
  Reads-wrapped text m k = record { at = λ w. ground (arith, k.at w) }

  pub Reads-query : (d : Driver) (select : Tables → Result A) → Reads (query d select)
  Reads-query d select = record { at = λ w. ground arith }
