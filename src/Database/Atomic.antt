-- ===== src/Database/Atomic.antt =====
-- `runTx` of internal/state/store.go: all that a transaction wrote is kept, or none of it.
use agent_state.Common.{String, ◌≡◌, refl, ◌⊎◌, inl, inr, Option, none, some, true, false, Bool}
use agent_state.Errors.{Result, ok, err, Err, external}
use agent_state.Message.{Time}
use agent_state.Database.{Tables, World, Driver}
use agent_state.Database.Monad.{Db, tick, run_tx, begun, finish, commit}

-- The two outcomes of a transaction that found the tables `t`, whose body would end as `body`: the
-- body returned and its tables are kept, and the caller has its value or an error of the database;
-- or the tables are as they were found, and the caller has the body's error or one of the database.
pub data AllOrNothing {A : Type 0} (t : Tables) (body run : Result A × World) : Type 0 where
  all :
      (a : A)
      → body.0 ≡ ok a
      → run.1.tables ≡ body.1.tables
      → (run.0 ≡ ok a) ⊎ ((m : String) × (run.0 ≡ err (external m)))
      → AllOrNothing t body run
  nothing :
      (e : Err)
      → run.0 ≡ err e
      → run.1.tables ≡ t
      → (body.0 ≡ err e) ⊎ ((m : String) × (e ≡ external m))
      → AllOrNothing t body run

module _ {A : Type 0} (d : Driver) where
  commit_atomic :
      (t : Tables) (a : A) (o : Option String) (applied : Bool) (w : World)
      → AllOrNothing t (ok a, w) (commit d t a o applied (tick w))
  commit_atomic t a none applied w = all a refl refl (inl refl)
  commit_atomic t a (some m) true w = all a refl refl (inr (m, refl))
  commit_atomic t a (some m) false w = nothing _ refl refl (inr (m, refl))

  finish_atomic : (t : Tables) (r : Result A × World) → AllOrNothing t r (finish d t r)
  finish_atomic t (ok a, w) = commit_atomic t a (d.fault w.calls) (d.commit_applies w.calls) w
  finish_atomic t (err e, w) = nothing e refl refl (inl refl)

  begun_atomic :
      (o : Option String) (body : Time → Db A) (w : World)
      → AllOrNothing w.tables (body (d.now w.calls) (tick w)) (begun d o body w)
  begun_atomic none body w = finish_atomic w.tables (body (d.now w.calls) (tick w))
  begun_atomic (some m) body w = nothing _ refl refl (inr (m, refl))

  -- Whatever the database refuses, the begin and the commit included, a transaction keeps all that
  -- its body wrote, and then the body returned, and the caller has its value or an error of the
  -- database; or it keeps nothing, and the caller has the body's error or one of the database.
  pub run_tx_atomic :
      (body : Time → Db A) (w : World)
      → AllOrNothing w.tables (body (d.now w.calls) (tick w)) (run_tx d body w)
  unfolding run_tx
  run_tx_atomic body w = begun_atomic (d.fault w.calls) body w
