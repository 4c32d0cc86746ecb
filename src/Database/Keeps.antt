-- ===== src/Database/Keeps.antt =====
-- What every path through a transaction keeps, the paths that end in an error included: a property of
-- the tables and of the sequence, which never falls.
use agent_state.Common.{ℕ, ◌≤◌, ◌≡◌, refl, String, Bool, true, false, Option, none, some, arith}
use agent_state.Errors.{Result, ok, err}
use agent_state.Message.{Time}
use agent_state.Database.{Tables, World, Driver}
use agent_state.Database.Monad.{
  Db, ◌>>=◌, continue, lift, wrapped, rewrap, tick, answer, statement, query, written, modify,
  commit, finish, begun, run_tx,
}

module _ (P : Tables → ℕ → Type 0) where
  -- From a world with the property, one with it and with no lower sequence.
  abbrev pub Kept : World → World → Type 0
  Kept w v = P v.tables v.sequence × (w.sequence ≤ v.sequence)

  pub record Keeps {ℓ} {A : Type ℓ} (m : Db A) : Type ℓ where
    pub at : (w : World) → P w.tables w.sequence → Kept w (m w).1

  module _ {ℓ κ} {A : Type ℓ} {B : Type κ} where
    continue-Kept :
        (f : A → Db B) (w : World) (r : Result A × World)
        → Kept w r.1
        → ((a : A) → Keeps (f a))
        → Kept w (continue f r).1
    continue-Kept f w (ok a, v) k h = let next = (h a).at v k.0 in (next.0, omega arith)
    continue-Kept f w (err e, v) k h = k

    pub Keeps-bind : (m : Db A) (f : A → Db B) → Keeps m → ((a : A) → Keeps (f a)) → Keeps (m >>= f)
    Keeps-bind m f km kf = record { at = λ w p. continue-Kept f w (m w) (km.at w p) kf }

  module _ {ℓ} {A : Type ℓ} where
    pub Keeps-lift : (r : Result A) → Keeps (lift r)
    Keeps-lift r = record { at = λ w p. (p, omega arith) }

    rewrap-Kept :
        (text : String) (w : World) (r : Result A × World) → Kept w r.1 → Kept w (rewrap text r).1
    rewrap-Kept text w (ok a, v) k = k
    rewrap-Kept text w (err e, v) k = k

    pub Keeps-wrapped : (text : String) (m : Db A) → Keeps m → Keeps (wrapped text m)
    Keeps-wrapped text m k = record { at = λ w p. rewrap-Kept text w (m w) (k.at w p) }

    answer-Kept :
        (o : Option String) (body : Db A) (w v : World)
        → v.sequence ≡ w.sequence
        → P v.tables v.sequence
        → Keeps body
        → Kept w (answer o body v).1
    answer-Kept none body w v e p k = let r = k.at v p in (r.0, omega arith)
    answer-Kept (some m) body w v e p k = (p, omega arith)

    pub Keeps-statement : (d : Driver) (body : Db A) → Keeps body → Keeps (statement d body)
    Keeps-statement d body k = record {
      at = λ w p. answer-Kept (d.fault w.calls) body w (tick w) refl p k;
    }

    pub Keeps-query : (d : Driver) (select : Tables → Result A) → Keeps (query d select)
    Keeps-query d select =
        Keeps-statement d (λ w. (select w.tables, w)) (record { at = λ w p. (p, omega arith) })

    written-Kept :
        (d : Driver) (w : World) (r : Result (A × Tables))
        → P w.tables w.sequence
        → ((a : A) (t : Tables) → r ≡ ok (a, t) → P t w.sequence)
        → Kept w (written d r w).1
    written-Kept d w (ok (a, t)) p h = (h a t refl, omega arith)
    written-Kept d w (err e) p h = (p, omega arith)

    pub Keeps-modify :
        (d : Driver) (change : Tables → Result (A × Tables))
        → ((t : Tables) (s : ℕ) (a : A) (t' : Tables) → P t s → change t ≡ ok (a, t') → P t' s)
        → Keeps (modify d change)
    Keeps-modify d change h =
        Keeps-statement d (λ w. written d (change w.tables) w)
          (record {
            at = λ w p.
                written-Kept d w (change w.tables) p (λ a t e. h w.tables w.sequence a t p e);
          })

  module _ {ℓ} {A : Type ℓ} (mono : (t : Tables) (s s' : ℕ) → s ≤ s' → P t s → P t s')
      (d : Driver) where
    commit-Kept :
        (w v : World) (a : A) (o : Option String) (applied : Bool)
        → P w.tables w.sequence
        → Kept w v
        → Kept w (commit d w.tables a o applied v).1
    commit-Kept w v a none applied p k = k
    commit-Kept w v a (some m) true p k = k
    commit-Kept w v a (some m) false p k = (mono w.tables w.sequence v.sequence k.1 p, k.1)

    finish-Kept :
        (w : World) (r : Result A × World)
        → P w.tables w.sequence
        → Kept w r.1
        → Kept w (finish d w.tables r).1
    finish-Kept w (ok a, v) p k =
        commit-Kept w (tick v) a (d.fault v.calls) (d.commit_applies v.calls) p k
    finish-Kept w (err e, v) p k = (mono w.tables w.sequence v.sequence k.1 p, k.1)

    begun-Kept :
        (o : Option String) (body : Time → Db A) (w : World)
        → P w.tables w.sequence
        → ((now : Time) → Keeps (body now))
        → Kept w (begun d o body w).1
    begun-Kept none body w p k =
        finish-Kept w (body (d.now w.calls) (tick w)) p ((k (d.now w.calls)).at (tick w) p)
    begun-Kept (some m) body w p k = (p, omega arith)

    -- A transaction keeps what its body keeps, also where it is rolled back.
    pub Keeps-run_tx :
        (body : Time → Db A) → ((now : Time) → Keeps (body now)) → Keeps (run_tx d body)
    unfolding run_tx
    Keeps-run_tx body k = record { at = λ w p. begun-Kept (d.fault w.calls) body w p k }
