-- ===== src/Store.antt =====
-- internal/state/store.go and conversation.go: what the operations of the store share. `runTx` is
-- Database.Monad.run_tx. The operations are in the modules below.
pub mod Append
pub mod Snapshot
pub mod Rounds
pub mod Extended
pub mod Appended
pub mod Cut
pub mod List
pub mod Rewrite
pub mod Reads
pub mod Written
pub mod Replaced
pub mod Distinct
pub mod Unique
pub mod Thinned
pub mod Cascade
pub mod Names
pub mod Present
pub mod Deleted
pub mod Walk
pub mod Operations
pub mod Range
use agent_state.Common.{ℕ}
use agent_state.Errors
use agent_state.Errors.{Uuid, Result, ok, err, Err, sentinel, no_rows, conversation_not_found}
use agent_state.Message.{Time}
use agent_state.Database.{Tables, World, Driver}
use agent_state.Database.Monad.{Db, query, statement, answer, continue}
use agent_state.Database.Statements.{Counts, select_counts}

pub record ConversationMetadata : Type 0 where
  pub id : Uuid
  pub message_count : ℕ
  pub updated_at : Time
  pub version : ℕ

abbrev pub metadata_of : Uuid → Counts → ConversationMetadata
metadata_of id c = record {
  id = id;
  message_count = c.message_count;
  updated_at = c.updated_at;
  version = c.version;
}

-- `scanConversationMetadata`: no row is the sentinel, another error is passed on.
unfoldable pub scan_conversation_metadata : Result Counts → Uuid → Result ConversationMetadata
scan_conversation_metadata (ok c) id = ok (metadata_of id c)
scan_conversation_metadata (err no_rows) id = err (sentinel conversation_not_found)
scan_conversation_metadata (err (Err.sentinel s)) id = err (Err.sentinel s)
scan_conversation_metadata (err (Err.plain m)) id = err (Err.plain m)
scan_conversation_metadata (err (Err.wrap m e)) id = err (Err.wrap m e)
scan_conversation_metadata (err (Err.with_id e i)) id = err (Err.with_id e i)
scan_conversation_metadata (err (Err.external m)) id = err (Err.external m)

abbrev pub scanned : Uuid → Result Counts × World → Result ConversationMetadata × World
scanned id (r, w) = (scan_conversation_metadata r id, w)

-- `loadConversationMetadata`
unfoldable pub load_conversation_metadata : Driver → Uuid → Db ConversationMetadata
unfolding scan_conversation_metadata select_counts
load_conversation_metadata d id w = scanned id (query d (select_counts id) w)

-- `loadConversationMetadataForUpdate`: the row lock keeps other transactions out, which do not
-- run here; the answer is the same.
unfoldable pub load_conversation_metadata_for_update : Driver → Uuid → Db ConversationMetadata
unfolding scan_conversation_metadata select_counts
load_conversation_metadata_for_update d id w = scanned id (query d (select_counts id) w)

-- `GetConversationMetadata`
unfoldable pub get_conversation_metadata : Driver → Uuid → Db ConversationMetadata
unfolding load_conversation_metadata
get_conversation_metadata d id = load_conversation_metadata d id
