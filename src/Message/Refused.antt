-- ===== src/Message/Refused.antt =====
-- Valid bodies that internal/state/convert.go writes to columns which it then refuses to read:
-- `stringPtr` stores an empty text as NULL, and the decoder tells the variants apart by NULL.
use agent_state.Common.{
  value_or, [], ◌≡◌, refl, false, Option, none, some, is_empty_text, arith, if◌then◌else◌,
}
use agent_state.Errors.{ok, err, Err, plain}
use agent_state.Message.{TextBody, ToolOutputBody, MessageBody, validate, validate_tool}
use agent_state.Message.Columns.{
  MapJson, MessageColumns, no_columns, string_ptr, encode_message_body, decode_message_body,
  encode_variant, encode_text, encode_image,
}
use agent_state.Message.Roundtrip.{
  IsFaithful, is_storable, body_metadata, tool_is_storable, metadata_back, image_frame,
}

-- The refusal of a body that is not storable: of a tool output with a name, the missing output.
abbrev pub refusal : MessageBody → Err
refusal b = elim b.tool_output [
  | none ↦ plain "message body missing variant"
  | some tool ↦
      if is_empty_text tool.tool_name
      then plain "message body missing variant"
      else plain "tool output missing variant"
]

module _ (json : MapJson) where
  tool_refused :
      (tool : ToolOutputBody)
      → IsFaithful json (value_or tool.metadata [])
      → validate_tool tool ≡ ok tt
      → tool_is_storable tool ≡ false
      → (cols : MessageColumns) × (encode_variant json none (some tool) ≡ ok cols)
        × (decode_message_body json cols
            ≡ err (refusal (record { text = none; tool_output = some tool })))
  unfolding validate_tool string_ptr decode_message_body
  tool_refused tool faithful valid storable =
      let base = record no_columns {
        tool_name = string_ptr tool.tool_name;
        tool_call_id = string_ptr tool.tool_call_id;
        tool_text_output = encode_text tool.text;
      } in
      let cols = encode_image tool.image base in
      let f = image_frame tool.image base in
      let r = metadata_back json tool.metadata cols faithful f.4 in
      (record cols { tool_metadata = r.0 }, r.1, ground (arith, f, r.2))

  variant_refused :
      (text : Option TextBody) (tool : Option ToolOutputBody)
      → let b : MessageBody = record { text = text; tool_output = tool } in
        IsFaithful json (body_metadata b)
        → validate b ≡ ok tt
        → is_storable b ≡ false
        → (cols : MessageColumns) × (encode_message_body json b ≡ ok cols)
          × (decode_message_body json cols ≡ err (refusal b))
  unfolding validate
  variant_refused none none faithful valid storable = cc
  variant_refused (some t) (some tool) faithful valid storable = cc
  variant_refused (some t) none faithful valid storable =
      unfold encode_message_body decode_message_body string_ptr in (no_columns, ground arith, refl)
  variant_refused none (some tool) faithful valid storable =
      let r = tool_refused tool faithful valid (ground arith) in
      (r.0, unfold encode_message_body in rw valid r.1, r.2)

  -- A valid body that is not storable, such as an empty text, with metadata that the JSON codec
  -- gives back, is encoded without an error, and the columns that it is encoded to are refused by
  -- the decoder.
  pub decode_refused :
      (b : MessageBody)
      → IsFaithful json (body_metadata b)
      → validate b ≡ ok tt
      → is_storable b ≡ false
      → (cols : MessageColumns) × (encode_message_body json b ≡ ok cols)
        × (decode_message_body json cols ≡ err (refusal b))
  decode_refused b faithful valid storable =
      variant_refused b.text b.tool_output faithful valid storable
