-- ===== src/Tests/Messages.antt =====
-- The message codec at concrete bodies.
use agent_state.Common.{◌≡◌, refl, none, some, [], ◌∷◌}
use agent_state.Common.Int.{pos}
use agent_state.Errors.{ok, err, ◌>>=◌}
use agent_state.Message.{Metadata, MessageBody, validate}
use agent_state.Message.Columns.{MapJson, MessageColumns, encode_message_body, decode_message_body}
use agent_state.Message.Roundtrip.{encode_decode, normalise}
use agent_state.Message.Refused.{decode_refused, refusal}

abbrev one_entry : Metadata
one_entry = ("k", "v") ∷ []

-- A codec that serves one map.
abbrev one_json : MapJson
one_json = record { marshal = λ m. ok "{k:v}"; unmarshal = λ buf. ok (some one_entry) }

abbrev pub empty_json : MapJson
empty_json = record { marshal = λ m. ok "{}"; unmarshal = λ buf. ok (some []) }

abbrev image_body : MessageBody
image_body = record {
  text = none;
  tool_output = some (record {
    tool_name = "shot";
    tool_call_id = "";
    metadata = some one_entry;
    text = none;
    image = some (record {
      external_url = "";
      mime_type = "image/png";
      detail = pos 1;
      width_px = pos 0;
      height_px = pos 20;
      sha256 = "";
    });
  });
}

abbrev empty_text : MessageBody
empty_text = record { text = some (record { text = "" }); tool_output = none }

encode_decode_example :
    (encode_message_body one_json image_body >>= decode_message_body one_json)
    ≡ ok (normalise image_body)
unfolding validate
encode_decode_example =
    encode_decode one_json image_body
      (record { buf = "{k:v}"; marshalled = refl; reads_back = refl }) refl refl

decode_refused_example :
    (cols : MessageColumns) × (encode_message_body empty_json empty_text ≡ ok cols)
    × (decode_message_body empty_json cols ≡ err (refusal empty_text))
unfolding validate
decode_refused_example =
    decode_refused empty_json empty_text
      (record { buf = "{}"; marshalled = refl; reads_back = refl }) refl refl
