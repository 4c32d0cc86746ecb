-- ===== src/Store/Operations/Snapshots.antt =====
-- The transaction of internal/state/snapshot.go keeps the tables well formed.
use agent_state.Common.{ℕ, suc, refl, List, [], ◌∷◌, arith}
use agent_state.Errors.{Uuid, ok}
use agent_state.Message.{Time}
use agent_state.Message.Columns.{MapJson}
use agent_state.Message.Digest.{Digest}
use agent_state.Message.Row.{MessageRow}
use agent_state.Database.{Driver}
use agent_state.Database.Keeps.{Keeps, Keeps-lift}
use agent_state.Database.Monad.{lift, new_uuid, modify, wrapped}
use agent_state.Database.Schema.{insert_snapshot-IsWellFormed, insert_snapshot_item-IsWellFormed}
use agent_state.Database.Snapshots.{insert_snapshot, insert_snapshot_item, select_conversation}
use agent_state.Database.WellFormed.{IsWellFormed}
use agent_state.Store.Cut.{empty_map, IdMap}
use agent_state.Store.Snapshot.{
  fetch_rows, check_fetched, unique_uuids, copy_message, insert_copies, copy_each,
  create_snapshot_tx, check_conversation, load_messages,
}
use agent_state.Store.Operations.Steps.{bind, step, reading}

module _ (json : MapJson) (digest : Digest) (d : Driver) where
  copy_each-Keeps :
      (fetched : IdMap MessageRow) (x : Uuid) (ids : List Uuid) (idx : ℕ)
      → Keeps IsWellFormed (copy_each json digest d fetched x idx ids)
  unfolding copy_each
  copy_each-Keeps fetched x [] idx = Keeps-lift IsWellFormed (ok tt)
  copy_each-Keeps fetched x (i ∷ is) idx =
      bind IsWellFormed (lift (copy_message json digest fetched x idx i)) _
        (Keeps-lift IsWellFormed _)
        λ item.
          bind IsWellFormed
            (wrapped "insert snapshot item" (modify d (insert_snapshot_item d item))) _
            (step IsWellFormed d _ _ (insert_snapshot_item-IsWellFormed d item))
            λ u. copy_each-Keeps fetched x is (suc idx)

  insert_copies-Keeps :
      (fetched : IdMap MessageRow) (id : Uuid) (ids : List Uuid) (now : Time) (x : Uuid)
      → Keeps IsWellFormed (insert_copies json digest d fetched id ids now x)
  insert_copies-Keeps fetched id ids now x =
      bind IsWellFormed (wrapped "insert snapshot" (modify d (insert_snapshot x id now))) _
        (step IsWellFormed d _ _ (insert_snapshot-IsWellFormed x id now))
        λ created.
          bind IsWellFormed (copy_each json digest d fetched x 0 ids) _
            (copy_each-Keeps fetched x ids 0) λ u. Keeps-lift IsWellFormed _

  pub create_snapshot_tx-Keeps :
      (id : Uuid) (ids : List Uuid) (now : Time)
      → Keeps IsWellFormed (create_snapshot_tx json digest d id ids now)
  unfolding create_snapshot_tx select_conversation
  create_snapshot_tx-Keeps id ids now =
      let unique = unique_uuids ids in
      bind IsWellFormed (check_conversation d id) _ (reading IsWellFormed d _ (λ w. ground arith))
        λ u.
          bind IsWellFormed (load_messages d id unique) _
            (reading IsWellFormed d _ (λ w. ground arith))
            λ rows.
              let fetched = fetch_rows rows empty_map in
              bind IsWellFormed (lift (check_fetched fetched unique)) _ (Keeps-lift IsWellFormed _)
                λ v.
                  bind IsWellFormed (new_uuid d) (insert_copies json digest d fetched id ids now)
                    (reading IsWellFormed d (new_uuid d) (λ w. (refl, refl)))
                    (insert_copies-Keeps fetched id ids now)
