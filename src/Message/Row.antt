-- ===== src/Message/Row.antt =====
-- internal/state/message_row.go: a row of the table `messages` as a message. The eleven body columns,
-- which the Go struct lists one by one, are one field here.
use agent_state.Common.{String}
use agent_state.Common.Int.{ℤ}
use agent_state.Errors.{Uuid, Result, ok, ◌>>=◌}
use agent_state.Message.{Time, Message}
use agent_state.Message.Columns.{MapJson, MessageColumns, decode_message_body}

-- messageRow
pub record MessageRow : Type 0 where
  pub id : Uuid
  pub conversation_id : Uuid
  pub role : ℤ
  pub kind : String
  pub columns : MessageColumns
  pub created_at : Time

-- `messageRow.toDomain`
unfoldable pub to_domain : MapJson → MessageRow → Result Message
to_domain json r = do
  body ← decode_message_body json r.columns
  ok (record {
    id = r.id;
    conversation_id = r.conversation_id;
    role = r.role;
    kind = r.kind;
    body = body;
    created_at = r.created_at;
  })
