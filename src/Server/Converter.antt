-- ===== src/Server/Converter.antt =====
-- internal/server/converter.go: message bodies from and to their protobuf messages.
use agent_state.Common.{
  ℕ, ◌-◌, ◌%◌, String, Bool, false, ◌==◌, Option, none, some, [], ◌∷◌, ltb, if◌then◌else◌,
}
use agent_state.Common.Int.{ℤ, pos, negsuc}
use agent_state.Errors.{Result, ok, err, plain, ◌>>=◌}
use agent_state.Message.{Metadata, ToolImageOutput, ToolOutputBody, MessageBody, AppendMessageInput}
use agent_state.Server.{
  ProtoImage, ProtoOutput, text_output, image_output, ProtoTool, ProtoVariant, text_body, tool_body,
  ProtoBody, ProtoInput,
}
use text.Mathlib.Text

-- The conversion of an int32 to an int16 keeps the low 16 bits.
abbrev pub low_bits : ℤ → ℕ
low_bits (pos n) = n % 65536
low_bits (negsuc n) = 65535 - n % 65536

abbrev pub signed : ℕ → ℤ
signed n = if ltb n 32768 then pos n else negsuc (65535 - n)

unfoldable pub to_int16 : ℤ → ℤ
to_int16 z = signed (low_bits z)

-- `m[k] = v` on the entries of a map.
abbrev pub put : String → String → Metadata → Metadata
put k v [] = (k, v) ∷ []
put k v ((j, x) ∷ m) = if Text.◌==◌ k j then (j, v) ∷ m else (j, x) ∷ put k v m

-- `for k, v := range from { to[k] = v }`
abbrev pub copy_into : Metadata → Metadata → Metadata
copy_into to [] = to
copy_into to ((k, v) ∷ from) = copy_into (put k v to) from

abbrev pub image_from_proto : ProtoImage → ToolImageOutput
image_from_proto p = record {
  external_url = p.external_url;
  mime_type = p.mime_type;
  detail = to_int16 p.detail;
  width_px = p.width_px;
  height_px = p.height_px;
  sha256 = p.sha256;
}

-- `tool` before its output is set.
abbrev pub tool_start : ProtoTool → ToolOutputBody
tool_start p = record {
  tool_name = p.tool_name;
  tool_call_id = p.tool_call_id;
  metadata = some (copy_into [] p.metadata);
  text = none;
  image = none;
}

abbrev pub with_output : Option ProtoOutput → ToolOutputBody → Result ToolOutputBody
with_output (some (text_output none)) tool = err (plain "tool_output.text missing payload")
with_output (some (text_output (some t))) tool =
    ok (record tool { text = some (record { text = t.text }) })
with_output (some (image_output none)) tool = err (plain "tool_output.image missing payload")
with_output (some (image_output (some i))) tool =
    ok (record tool { image = some (image_from_proto i) })
with_output none tool = err (plain "tool_output missing output variant")

abbrev pub tool_message : ToolOutputBody → MessageBody
tool_message tool = record { text = none; tool_output = some tool }

abbrev pub variant_from_proto : Option ProtoVariant → Result MessageBody
variant_from_proto (some (text_body none)) = err (plain "text body missing payload")
variant_from_proto (some (text_body (some t))) =
    ok (record { text = some (record { text = t.text }); tool_output = none })
variant_from_proto (some (tool_body none)) = err (plain "tool_output missing payload")
variant_from_proto (some (tool_body (some p))) = do
  tool ← with_output p.output (tool_start p)
  ok (tool_message tool)
variant_from_proto none = err (plain "body variant not set")

-- `fromProtoMessageBody`
unfoldable pub from_proto_message_body : Option ProtoBody → Result MessageBody
unfolding to_int16
from_proto_message_body none = err (plain "body is required")
from_proto_message_body (some b) = variant_from_proto b.body

-- `input.GetRole() == ROLE_UNSPECIFIED`, the enum's value 0.
abbrev pub is_unspecified : ℤ → Bool
is_unspecified (pos n) = n == 0
is_unspecified (negsuc n) = false

-- `fromProtoAppendMessage`
unfoldable pub from_proto_append_message : Option ProtoInput → Result AppendMessageInput
unfolding to_int16 from_proto_message_body
from_proto_append_message none = err (plain "message is nil")
from_proto_append_message (some p) =
    let converted : Result AppendMessageInput = (do
      body ← from_proto_message_body p.body
      ok (record { role = to_int16 p.role; kind = p.kind; body = body })) in
    if is_unspecified p.role then err (plain "role must be specified") else converted

-- The output that is set last stays.
abbrev pub output_to_proto : ToolOutputBody → Option ProtoOutput
output_to_proto tool = elim tool.image [
  | some i ↦ some (
      image_output (
        some (record {
          external_url = i.external_url;
          mime_type = i.mime_type;
          detail = i.detail;
          width_px = i.width_px;
          height_px = i.height_px;
          sha256 = i.sha256;
        })))
  | none ↦ elim tool.text [
    | some t ↦ some (text_output (some (record { text = t.text })))
    | none ↦ none
  ]
]

-- A range over the nil map has no rounds.
abbrev map_entries : Option Metadata → Metadata
map_entries none = []
map_entries (some m) = m

abbrev pub tool_to_proto : ToolOutputBody → ProtoTool
tool_to_proto tool = record {
  tool_name = tool.tool_name;
  tool_call_id = tool.tool_call_id;
  metadata = copy_into [] (map_entries tool.metadata);
  output = output_to_proto tool;
}

-- `toProtoMessageBody`
unfoldable pub to_proto_message_body : MessageBody → ProtoBody
to_proto_message_body b = elim b.text [
  | some t ↦ record { body = some (text_body (some (record { text = t.text }))) }
  | none ↦ elim b.tool_output [
    | some tool ↦ record { body = some (tool_body (some (tool_to_proto tool))) }
    | none ↦ record { body = none }
  ]
]
