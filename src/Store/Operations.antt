-- ===== src/Store/Operations.antt =====
-- The operations of internal/state that write, as one type, and any sequence of them.
pub mod Steps
pub mod Appends
pub mod Ranges
pub mod Snapshots
pub mod Runs
pub mod Untouched
pub mod Schema
pub mod Names
pub mod Owned
pub mod Frozen
pub mod Refined
use agent_state.Common.{List, [], ◌∷◌}
use agent_state.Errors.{Uuid}
use agent_state.Message.{AppendMessageInput}
use agent_state.Message.Columns.{MapJson}
use agent_state.Message.Digest.{Digest}
use agent_state.Database.{World, Driver}
use agent_state.Store.Append.{append_conversation_messages}
use agent_state.Store.Range.{
  ReplaceRangeSpec, DeleteRangeSpec, replace_conversation_messages_range,
  delete_conversation_messages_range,
}
use agent_state.Store.Snapshot.{create_snapshot}

pub data Operation : Type 0 where
  append : Uuid → List AppendMessageInput → Operation
  replace : Uuid → ReplaceRangeSpec → Operation
  delete : Uuid → DeleteRangeSpec → Operation
  snapshot : Uuid → List Uuid → Operation

module _ (json : MapJson) (digest : Digest) (d : Driver) where
  -- What an operation leaves, whether it returns or fails.
  abbrev pub exec : Operation → World → World
  exec (append id inputs) w = (append_conversation_messages json d id inputs w).1
  exec (replace id spec) w = (replace_conversation_messages_range d id spec w).1
  exec (delete id spec) w = (delete_conversation_messages_range d id spec w).1
  exec (snapshot id ids) w = (create_snapshot json digest d id ids w).1

  abbrev pub run : List Operation → World → World
  run [] w = w
  run (op ∷ ops) w = run ops (exec op w)
