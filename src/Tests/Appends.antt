-- ===== src/Tests/Appends.antt =====
-- An append to the sample's conversation.
use agent_state.Common.{arith, ◌≡◌, refl, some, none, List, [], ◌∷◌}
use agent_state.Common.Int.{pos}
use agent_state.Message.{Message, AppendMessageInput, MessageBody, validate}
use agent_state.Message.Columns.{encode_message_body, decode_message_body}
use agent_state.Message.Row.{to_domain}
use agent_state.Database.{World}
use agent_state.Database.Monad.{run_tx}
use agent_state.Database.Statements.{
  select_order, insert_message, place_item, update_counts, ensure_conversation,
}
use agent_state.Store.{ConversationMetadata}
use agent_state.Store.Append.{append_conversation_messages, append_tx, append_each, append_message}
use agent_state.Store.Appended.{Appended, append-Appended}
use agent_state.Tests.Sample.{quiet, tables, world}
use agent_state.Tests.Messages.{empty_json}

abbrev body : MessageBody
body = record { text = some (record { text = "hello" }); tool_output = none }

abbrev inputs : List AppendMessageInput
inputs = record { role = pos 1; kind = "note"; body = body } ∷ []

abbrev appended : World
appended = (append_conversation_messages empty_json quiet 7 inputs world).1

abbrev appended_metadata : ConversationMetadata
appended_metadata = record { id = 7; message_count = 4; updated_at = 1000; version = 5 }

abbrev appended_messages : List Message
appended_messages =
    record {
      id = 100;
      conversation_id = 7;
      role = pos 1;
      kind = "note";
      body = body;
      created_at = 1000;
    }
    ∷ []

appended_order : select_order 7 appended.tables ≡ 11 ∷ 12 ∷ 13 ∷ 100 ∷ []
unfolding select_order append_conversation_messages append_tx append_each append_message
    ensure_conversation insert_message place_item update_counts encode_message_body
    decode_message_body to_domain validate run_tx
appended_order = refl

append-Appended_example :
    Appended empty_json quiet 7 1000 inputs tables appended_metadata appended_messages
      appended.tables
unfolding append_conversation_messages append_tx append_each append_message ensure_conversation
    insert_message place_item update_counts encode_message_body decode_message_body to_domain
    validate run_tx
append-Appended_example =
    append-Appended empty_json quiet 7 inputs world (omega arith, (omega arith, (omega arith, tt)))
      refl
