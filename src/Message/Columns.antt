-- ===== src/Message/Columns.antt =====
-- internal/state/convert.go: a message body as the nullable columns of its table row, and back.
-- encoding/json on the metadata map is a parameter.
use agent_state.Common.{
  zero, suc, String, Option, none, some, [], ◌∷◌, is_some, value_or, is_empty_text, ◌&&◌, ◌||◌, not,
  if◌then◌else◌,
}
use agent_state.Common.Int.{ℤ, pos, negsuc}
use agent_state.Errors.{Result, ok, err, plain, wrap, ◌>>=◌, ◌>>◌}
use agent_state.Message.{
  Metadata, TextBody, ToolTextOutput, ToolImageOutput, ToolOutputBody, MessageBody, validate,
}

-- []byte
abbrev pub Bytes : Type 0
Bytes = String

-- json.Marshal and json.Unmarshal at map[string]string. The text `null` makes the map nil.
pub record MapJson : Type 0 where
  pub marshal : Metadata → Result Bytes
  pub unmarshal : Bytes → Result (Option Metadata)

-- messageColumns
pub record MessageColumns : Type 0 where
  pub body_text : Option String
  pub tool_name : Option String
  pub tool_call_id : Option String
  pub tool_text_output : Option String
  pub tool_image_external_url : Option String
  pub tool_image_mime_type : Option String
  pub tool_image_detail : Option ℤ
  pub tool_image_width_px : Option ℤ
  pub tool_image_height_px : Option ℤ
  pub tool_image_sha256 : Option String
  pub tool_metadata : Option Bytes

-- `messageColumns{}`
abbrev pub no_columns : MessageColumns
no_columns = record {
  body_text = none;
  tool_name = none;
  tool_call_id = none;
  tool_text_output = none;
  tool_image_external_url = none;
  tool_image_mime_type = none;
  tool_image_detail = none;
  tool_image_width_px = none;
  tool_image_height_px = none;
  tool_image_sha256 = none;
  tool_metadata = none;
}

unfoldable pub string_ptr : String → Option String
string_ptr v = if is_empty_text v then none else some v

-- `if x != 0 { cols.x = &x }`
abbrev pub nonzero_ptr : ℤ → Option ℤ
nonzero_ptr (pos zero) = none
nonzero_ptr (pos (suc n)) = some (pos (suc n))
nonzero_ptr (negsuc n) = some (negsuc n)

-- The block `if out.Image != nil`, on the columns so far.
abbrev pub encode_image : Option ToolImageOutput → MessageColumns → MessageColumns
encode_image none cols = cols
encode_image (some image) cols = record cols {
  tool_image_external_url = string_ptr image.external_url;
  tool_image_mime_type = string_ptr image.mime_type;
  tool_image_detail = some image.detail;
  tool_image_width_px = nonzero_ptr image.width_px;
  tool_image_height_px = nonzero_ptr image.height_px;
  tool_image_sha256 = string_ptr image.sha256;
}

-- `out.Text != nil`
abbrev pub encode_text : Option ToolTextOutput → Option String
encode_text none = none
encode_text (some t) = string_ptr t.text

module _ (json : MapJson) where
  -- `len(out.Metadata) > 0`, which is false of the nil map too.
  abbrev pub encode_metadata : Option Metadata → MessageColumns → Result MessageColumns
  encode_metadata none cols = ok cols
  encode_metadata (some []) cols = ok cols
  encode_metadata (some (e ∷ m)) cols = elim (json.marshal (e ∷ m)) [
    | ok buf ↦ ok (record cols { tool_metadata = some buf })
    | err x ↦ err (wrap "marshal metadata" x)
  ]

  -- What follows the validation. With neither variant the code would dereference nil; the
  -- validation excludes that.
  abbrev pub encode_variant : Option TextBody → Option ToolOutputBody → Result MessageColumns
  encode_variant (some t) tool = ok (record no_columns { body_text = string_ptr t.text })
  encode_variant none (some out) = encode_metadata out.metadata (
      encode_image out.image (record no_columns {
        tool_name = string_ptr out.tool_name;
        tool_call_id = string_ptr out.tool_call_id;
        tool_text_output = encode_text out.text;
      }))
  encode_variant none none = err (plain "nil pointer dereference")

  unfoldable pub encode_message_body : MessageBody → Result MessageColumns
  unfolding validate string_ptr
  encode_message_body body = do validate body; encode_variant body.text body.tool_output

-- The image is rebuilt if one of three of its columns is set.
abbrev pub decode_image : MessageColumns → Option ToolImageOutput
decode_image cols =
    if is_some cols.tool_image_external_url
      || is_some cols.tool_image_mime_type
      || is_some cols.tool_image_detail
    then some (record {
      external_url = value_or cols.tool_image_external_url "";
      mime_type = value_or cols.tool_image_mime_type "";
      detail = value_or cols.tool_image_detail (pos 0);
      width_px = value_or cols.tool_image_width_px (pos 0);
      height_px = value_or cols.tool_image_height_px (pos 0);
      sha256 = value_or cols.tool_image_sha256 "";
    })
    else none

abbrev pub decode_text : Option String → Option ToolTextOutput
decode_text none = none
decode_text (some t) = some (record { text = t })

module _ (json : MapJson) where
  -- The map starts empty; one that the decoder made nil becomes empty again.
  abbrev pub decode_metadata : Option Bytes → Result Metadata
  decode_metadata none = ok []
  decode_metadata (some buf) = elim (json.unmarshal buf) [
    | ok m ↦ ok (value_or m [])
    | err x ↦ err (wrap "unmarshal metadata" x)
  ]

  abbrev pub decode_tool : String → MessageColumns → Result MessageBody
  decode_tool name cols = do
    metadata ← decode_metadata cols.tool_metadata
    let text = decode_text cols.tool_text_output
    let image = decode_image cols
    if not (is_some text) && not (is_some image)
        then err (plain "tool output missing variant")
        else ok (record {
          text = none;
          tool_output = some (record {
            tool_name = name;
            tool_call_id = value_or cols.tool_call_id "";
            metadata = some metadata;
            text = text;
            image = image;
          });
        })

  -- The tests of decodeMessageBody on the two columns that tell the variants apart.
  abbrev pub decode_variant : Option String → Option String → MessageColumns → Result MessageBody
  decode_variant (some t) name cols =
      ok (record { text = some (record { text = t }); tool_output = none })
  decode_variant none (some name) cols = decode_tool name cols
  decode_variant none none cols = err (plain "message body missing variant")

  unfoldable pub decode_message_body : MessageColumns → Result MessageBody
  decode_message_body cols = decode_variant cols.body_text cols.tool_name cols
