-- ===== src/Database.antt =====
-- The tables of migrations/0001_init.sql, and what the code sees of the database and of its runtime.
-- The statements that internal/state sends are in Statements, the transactions in Monad.
pub mod Query
pub mod Monad
pub mod Ordered
pub mod Filtered
pub mod Counts
pub mod Ensured
pub mod Outcome
pub mod Atomic
pub mod Ended
pub mod Keeps
pub mod WellFormed
pub mod Inserted
pub mod Copied
pub mod Schema
pub mod Statements
pub mod Snapshots
pub mod Among
use agent_state.Common.{ℕ, String, Option, Bool, List}
use agent_state.Common.Int.{ℤ}
use agent_state.Errors.{Uuid, Result}
use agent_state.Message.{Time}
use agent_state.Message.Columns.{Bytes, MessageColumns}
use agent_state.Message.Row.{MessageRow}

-- CREATE TABLE conversations; the counts are never negative.
pub record Conversation : Type 0 where
  pub id : Uuid
  pub message_count : ℕ
  pub updated_at : Time
  pub version : ℕ
  pub created_at : Time

-- CREATE TABLE conversation_items
pub record Item : Type 0 where
  pub conversation_id : Uuid
  pub position : ℕ
  pub message_id : Uuid

-- CREATE TABLE snapshots; also the type Snapshot of types.go.
pub record Snapshot : Type 0 where
  pub id : Uuid
  pub conversation_id : Uuid
  pub created_at : Time

-- CREATE TABLE snapshot_items
pub record SnapshotItem : Type 0 where
  pub snapshot_id : Uuid
  pub order_idx : ℕ
  pub message_id : Uuid
  pub role : ℤ
  pub kind : String
  pub columns : MessageColumns
  pub body_sha256 : String
  pub created_at : Time

-- The rows of each table, oldest first.
pub record Tables : Type 0 where
  pub conversations : List Conversation
  pub messages : List MessageRow
  pub items : List Item
  pub snapshots : List Snapshot
  pub snapshot_items : List SnapshotItem

-- `sequence` is the last value that the BIGSERIAL column `position` took; a rollback keeps it.
-- `calls` counts the calls made of the database and of the runtime, which choose by it.
pub record World : Type 0 where
  pub tables : Tables
  pub sequence : ℕ
  pub calls : ℕ

-- What is chosen outside the code, at the n-th call: whether the database refuses it, NOW(), the
-- next uuid.New(), the order of rows and of map keys where no order is asked for, whether a commit
-- that reports an error took effect, and the form in which a JSONB column keeps a text.
pub record Driver : Type 0 where
  pub fault : ℕ → Option String
  pub now : ℕ → Time
  pub new_uuid : ℕ → Uuid
  pub scan_rows : ℕ → List MessageRow → List MessageRow
  pub map_keys : ℕ → List Uuid → List Uuid
  pub commit_applies : ℕ → Bool
  pub store_json : Bytes → Result Bytes
