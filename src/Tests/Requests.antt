-- ===== src/Tests/Requests.antt =====
-- Requests to the server on the sample.
use agent_state.Common.{◌≡◌, ◌≢◌, refl, ◌⊎◌, some, none, [], ◌∷◌, arith, if◌then◌else◌}
use agent_state.Common.Int.{pos}
use agent_state.Errors.{ok, err, sentinel, wrap, plain, message_not_found}
use agent_state.Message.{MessageBody, AppendMessageInput}
use agent_state.Database.{World}
use agent_state.Database.Monad.{run_tx}
use agent_state.Database.Statements.{select_order}
use agent_state.Store.{load_conversation_metadata_for_update}
use agent_state.Store.Cut.{cut, range_ends}
use agent_state.Store.Range.{
  replace_conversation_messages_range, replace_range_tx, delete_conversation_messages_range,
  delete_range_tx, fetch_conversation_order,
}
use agent_state.Server.{image_output, ProtoVariant, text_body, tool_body, ProtoInput}
use agent_state.Server.Bodies.{IsConverted, from_proto-to_proto}
use agent_state.Server.Converter.{from_proto_message_body, from_proto_append_message, to_int16}
use agent_state.Token.{UuidText}
use agent_state.Server.Handlers.{
  AppendRequest, RangeRequest, serve_append, serve_replace, serve_delete, read_append, read_range,
  read_replace, read_delete, parse_uuid,
}
use agent_state.Server.Refusals.{serve_append-refusal, serve_replace-refusal, serve_delete-refusal}
use agent_state.Server.Roles.{from_proto-role_kept, from_proto-role_lost}
use agent_state.Server.Status.{
  internal, not_found, invalid_argument, to_status_error, to_status_error_lem,
}
use agent_state.Tests.Messages.{empty_json}
use agent_state.Tests.Sample.{quiet, tables, world}
use text.Mathlib.Text

abbrev names : UuidText
names = record {
  parse = λ s.
      if Text.◌==◌ s "seven"
      then ok 7
      else if Text.◌==◌ s "eleven"
      then ok 11
      else if Text.◌==◌ s "twelve"
      then ok 12
      else err (plain "invalid UUID");
  print = λ n. "id";
}

abbrev tool : ProtoVariant
tool = tool_body (
    some (record {
      tool_name = "shot";
      tool_call_id = "1";
      metadata = ("a", "x") ∷ ("b", "y") ∷ [];
      output = some (
          image_output (
            some (record {
              external_url = "u";
              mime_type = "";
              detail = pos 3;
              width_px = pos 70000;
              height_px = pos 2;
              sha256 = "";
            })));
    }))

abbrev converted : MessageBody
converted = record {
  text = none;
  tool_output = some (record {
    tool_name = "shot";
    tool_call_id = "1";
    metadata = some (("a", "x") ∷ ("b", "y") ∷ []);
    text = none;
    image = some (record {
      external_url = "u";
      mime_type = "";
      detail = pos 3;
      width_px = pos 70000;
      height_px = pos 2;
      sha256 = "";
    });
  });
}

from_proto-to_proto_example : IsConverted (some tool) converted
unfolding from_proto_message_body to_int16
from_proto-to_proto_example =
    from_proto-to_proto (record { body = some tool }) (((refl, tt), (tt, tt)), omega arith) refl

abbrev hello : ProtoInput
hello = record {
  role = pos 2;
  kind = "note";
  body = some (record { body = some (text_body (some (record { text = "hello" }))) });
}

abbrev hello_body : MessageBody
hello_body = record { text = some (record { text = "hello" }); tool_output = none }

abbrev hello_input : AppendMessageInput
hello_input = record { role = pos 2; kind = "note"; body = hello_body }

from_proto-role_kept_example : (hello_input.role ≡ hello.role) × (hello_input.role ≢ pos 0)
unfolding from_proto_append_message from_proto_message_body to_int16
from_proto-role_kept_example = from_proto-role_kept hello (omega arith) refl

from_proto-role_lost_example :
    from_proto_append_message (some (record hello { role = pos 65536 }))
    ≡ ok (record hello_input { role = pos 0 })
unfolding from_proto_message_body
from_proto-role_lost_example =
    from_proto-role_lost (record hello { role = pos 65536 }) 1 (omega arith) refl refl

to_status_error_lem_example :
    to_status_error (wrap "load" (sentinel message_not_found))
    ≡ record { code = not_found; cause = wrap "load" (sentinel message_not_found) }
to_status_error_lem_example = to_status_error_lem (wrap "load" (sentinel message_not_found))

-- A message with a role, and one without, which is refused when the request is read.
abbrev nameless : ProtoInput
nameless = record hello { role = pos 0 }

abbrev append_nameless : AppendRequest
append_nameless = record { conversation_id = "seven"; messages = some hello ∷ some nameless ∷ [] }

abbrev backwards : RangeRequest
backwards = record {
  conversation_id = "seven";
  from_message_id = "twelve";
  to_message_id = "eleven";
}

abbrev after_append : World
after_append = (serve_append names quiet empty_json append_nameless world).1

abbrev after_replace : World
after_replace =
    (serve_replace names quiet (record { range = backwards; new_message_ids = [] }) world).1

abbrev after_delete : World
after_delete = (serve_delete names quiet backwards world).1

serve_append-refusal_example : (after_append.tables ≡ tables) ⊎ (invalid_argument ≡ internal)
unfolding serve_append read_append parse_uuid from_proto_append_message from_proto_message_body
serve_append-refusal_example =
    serve_append-refusal names empty_json quiet append_nameless world refl

serve_replace-refusal_example : (after_replace.tables ≡ tables) ⊎ (invalid_argument ≡ internal)
unfolding serve_replace read_replace read_range parse_uuid replace_conversation_messages_range
    replace_range_tx load_conversation_metadata_for_update fetch_conversation_order select_order cut
    run_tx to_status_error
serve_replace-refusal_example =
    serve_replace-refusal names quiet (record { range = backwards; new_message_ids = [] }) world
      refl

serve_delete-refusal_example : (after_delete.tables ≡ tables) ⊎ (invalid_argument ≡ internal)
unfolding serve_delete read_delete read_range parse_uuid delete_conversation_messages_range
    delete_range_tx load_conversation_metadata_for_update fetch_conversation_order select_order
    range_ends run_tx to_status_error
serve_delete-refusal_example = serve_delete-refusal names quiet backwards world refl
