-- ===== src/Database/Ended.antt =====
-- What `runTx` of internal/state/store.go leaves in the tables, for those who do not ask what it
-- returned.
use agent_state.Common.{◌≡◌, ap, ◌⊎◌, inl, inr}
use agent_state.Errors.{Result, ok}
use agent_state.Message.{Time}
use agent_state.Database.{Tables, World, Driver}
use agent_state.Database.Atomic.{AllOrNothing, all, nothing, run_tx_atomic}
use agent_state.Database.Monad.{Db, tick, run_tx}

module _ {A : Type 0} where
  ended :
      {t : Tables} {r r' : Result A × World}
      → AllOrNothing t r r'
      → (r'.1.tables ≡ t) ⊎ ((a : A) × (r ≡ (ok a, r.1)) × (r'.1.tables ≡ r.1.tables))
  ended {r = r} (all a e same reply) = inr (a, ap (λ (x : Result A). (x, r.1)) e, same)
  ended (nothing e reply same cause) = inl same

  -- The tables that it found, or those of a body that returned.
  pub run_tx-ended :
      (d : Driver) (body : Time → Db A) (w : World)
      → ((run_tx d body w).1.tables ≡ w.tables)
        ⊎ ((a : A) × (body (d.now w.calls) (tick w) ≡ (ok a, (body (d.now w.calls) (tick w)).1))
            × ((run_tx d body w).1.tables ≡ (body (d.now w.calls) (tick w)).1.tables))
  run_tx-ended d body w = ended (run_tx_atomic d body w)
