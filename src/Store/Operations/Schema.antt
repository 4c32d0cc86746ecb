-- ===== src/Store/Operations/Schema.antt =====
-- The operations of internal/state keep the tables well formed, on every path.
use agent_state.Common.{List}
use agent_state.Message.Columns.{MapJson}
use agent_state.Message.Digest.{Digest}
use agent_state.Database.{World, Driver}
use agent_state.Database.WellFormed.{IsWellFormed, later-IsWellFormed}
use agent_state.Store.Operations.{Operation, run}
use agent_state.Store.Operations.Snapshots.{create_snapshot_tx-Keeps}
use agent_state.Store.Operations.Steps.{KeptByWrites}
use agent_state.Store.Operations.Runs.{run-Kept}
use agent_state.Database.Schema.{
  ensure_conversation-IsWellFormed, update_counts-IsWellFormed, insert_message-IsWellFormed,
  insert_item-Keeps, delete_items-IsWellFormed, delete_messages-IsWellFormed,
}

schema_writes : KeptByWrites IsWellFormed
schema_writes = record {
  later = later-IsWellFormed;
  ensured = ensure_conversation-IsWellFormed;
  counted = update_counts-IsWellFormed;
  inserted = insert_message-IsWellFormed;
  placed = insert_item-Keeps;
  cleared = delete_items-IsWellFormed;
  deleted = delete_messages-IsWellFormed;
}

module _ (json : MapJson) (digest : Digest) (d : Driver) where
  -- Any sequence of operations, whether they return or fail, keeps the tables well formed: the
  -- positions of the items grow and the sequence has passed them, items and snapshot items name rows
  -- that exist, and no message id, no entry of a conversation stands twice.
  pub run-IsWellFormed :
      (ops : List Operation) (w : World)
      → IsWellFormed w.tables w.sequence
      → IsWellFormed (run json digest d ops w).tables (run json digest d ops w).sequence
  run-IsWellFormed =
      run-Kept IsWellFormed schema_writes json digest d (create_snapshot_tx-Keeps json digest d)
