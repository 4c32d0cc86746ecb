-- ===== src/Store/Append.antt =====
-- internal/state/append.go: messages added at the end of a conversation.
use agent_state.Common.{◌+◌, List, [], ◌∷◌, length}
use agent_state.Errors.{Uuid, plain}
use agent_state.Message.{Time, Message, AppendMessageInput}
use agent_state.Message.Columns.{MapJson, MessageColumns, encode_message_body}
use agent_state.Message.Row.{MessageRow, to_domain}
use agent_state.Database.{Driver}
use agent_state.Database.Monad.{
  Db, ◌>>=◌, ◌>>◌, pure, raise, lift, wrapped, modify, new_uuid, run_tx,
}
use agent_state.Database.Statements.{
  ensure_conversation, insert_message, insert_item, update_counts,
}
use agent_state.Store.{ConversationMetadata, metadata_of}

-- The `messageRow` of the loop body; the database sets the column `created_at`.
abbrev pub row_of : Uuid → Uuid → AppendMessageInput → MessageColumns → Time → MessageRow
row_of message conversation input cols created = record {
  id = message;
  conversation_id = conversation;
  role = input.role;
  kind = input.kind;
  columns = cols;
  created_at = created;
}

module _ (json : MapJson) (d : Driver) where
  -- One round of the loop.
  unfoldable pub append_message : Uuid → Time → AppendMessageInput → Db Message
  append_message id now input = do
    cols ← lift (encode_message_body json input.body)
    message_id ← new_uuid d
    created ←
        wrapped "insert message"
          (modify d (insert_message d now (row_of message_id id input cols now)))
    wrapped "insert conversation item" (insert_item d id message_id)
    lift (to_domain json (row_of message_id id input cols created))

  unfoldable pub append_each : Uuid → Time → List AppendMessageInput → Db (List Message)
  append_each id now [] = pure []
  append_each id now (x ∷ xs) = do
    message ← append_message id now x
    rest ← append_each id now xs
    pure (message ∷ rest)

  -- The transaction of AppendConversationMessages.
  unfoldable pub append_tx :
      Uuid → List AppendMessageInput → Time → Db (ConversationMetadata × List Message)
  append_tx id inputs now = do
    wrapped "ensure conversation" (modify d (ensure_conversation id now))
    result ← append_each id now inputs
    counts ←
        wrapped "update conversation metadata"
          (modify d (update_counts (λ n. n + length inputs) id now))
    pure (metadata_of id counts, result)

  unfoldable pub append_conversation_messages :
      Uuid → List AppendMessageInput → Db (ConversationMetadata × List Message)
  append_conversation_messages id [] = raise (plain "append requires at least one message")
  append_conversation_messages id (x ∷ xs) = run_tx d (append_tx id (x ∷ xs))
