-- ===== src/Message/Roundtrip.antt =====
-- What is stored of a body is what is read back, and which bodies cannot be stored
-- (internal/state/convert.go).
use agent_state.Common.{
  zero, suc, String, ◌≡◌, refl, Bool, true, Option, none, some, [], ◌∷◌, value_or, is_empty_text,
  not, ◌&&◌, arith,
}
use agent_state.Common.Int.{ℤ, pos, negsuc}
use agent_state.Errors.{ok, ◌>>=◌}
use agent_state.Message.{
  Metadata, TextBody, ToolImageOutput, ToolOutputBody, MessageBody, validate, validate_tool,
}
use agent_state.Message.Columns.{
  Bytes, MapJson, MessageColumns, no_columns, string_ptr, nonzero_ptr, encode_message_body,
  decode_message_body, encode_variant, encode_text, encode_metadata, decode_metadata, encode_image,
  decode_image,
}

-- A nil metadata map comes back as an empty one.
abbrev pub normalise_tool : ToolOutputBody → ToolOutputBody
normalise_tool tool = record tool { metadata = some (value_or tool.metadata []) }

abbrev pub normalise : MessageBody → MessageBody
normalise b = record b {
  tool_output = elim b.tool_output [ none ↦ none | some t ↦ some (normalise_tool t) ];
}

-- The texts that the decoder tells the variants apart by are not empty.
abbrev pub tool_is_storable : ToolOutputBody → Bool
tool_is_storable tool =
    not (is_empty_text tool.tool_name)
    && elim tool.text [ none ↦ true | some t ↦ not (is_empty_text t.text) ]

abbrev pub is_storable : MessageBody → Bool
is_storable b =
    elim b.text [ none ↦ true | some t ↦ not (is_empty_text t.text) ]
    && elim b.tool_output [ none ↦ true | some tool ↦ tool_is_storable tool ]

-- The metadata of a body; a nil map has no entries.
abbrev pub body_metadata : MessageBody → Metadata
body_metadata b = elim b.tool_output [ none ↦ [] | some tool ↦ value_or tool.metadata [] ]

-- What encoding/json documents, at one map: it is marshalled, and reading that gives it back.
pub record IsFaithful (json : MapJson) (m : Metadata) : Type 0 where
  pub buf : Bytes
  pub marshalled : json.marshal m ≡ ok buf
  pub reads_back : json.unmarshal buf ≡ ok (some m)

pub ptr_back : (s : String) → value_or (string_ptr s) "" ≡ s
unfolding string_ptr
ptr_back String.[] = refl
ptr_back (String.◌∷◌ c s) = refl

pub nonzero_back : (n : ℤ) → value_or (nonzero_ptr n) (pos 0) ≡ n
nonzero_back (pos zero) = refl
nonzero_back (pos (suc n)) = refl
nonzero_back (negsuc n) = refl

-- The image's columns give the image back, also after the metadata column is set.
image_back :
    (image : Option ToolImageOutput) (cols : MessageColumns) (buf : Option Bytes)
    → decode_image cols ≡ none
    → decode_image (record (encode_image image cols) { tool_metadata = buf }) ≡ image
unfolding string_ptr
image_back none cols buf h = h
image_back (some image) cols buf h = ground (
  arith,
  ptr_back image.external_url,
  ptr_back image.mime_type,
  ptr_back image.sha256,
  nonzero_back image.width_px,
  nonzero_back image.height_px,
)

-- An image changes no other column.
pub image_frame :
    (image : Option ToolImageOutput) (cols : MessageColumns)
    → ((encode_image image cols).body_text ≡ cols.body_text)
      × ((encode_image image cols).tool_name ≡ cols.tool_name)
      × ((encode_image image cols).tool_call_id ≡ cols.tool_call_id)
      × ((encode_image image cols).tool_text_output ≡ cols.tool_text_output)
      × ((encode_image image cols).tool_metadata ≡ cols.tool_metadata)
image_frame none cols = (refl, refl, refl, refl, refl)
image_frame (some image) cols = (refl, refl, refl, refl, refl)

module _ (json : MapJson) where
  pub metadata_back :
      (m : Option Metadata) (cols : MessageColumns)
      → IsFaithful json (value_or m [])
      → cols.tool_metadata ≡ none
      → (buf : Option Bytes) × (encode_metadata json m cols
          ≡ ok (record cols { tool_metadata = buf }))
        × (decode_metadata json buf ≡ ok (value_or m []))
  metadata_back none cols f h = (none, ground arith, refl)
  metadata_back (some []) cols f h = (none, ground arith, refl)
  metadata_back (some (e ∷ m)) cols f h =
      (some f.buf, rw (f.marshalled, encode_metadata), rw (f.reads_back, decode_metadata))

  tool_back :
      (tool : ToolOutputBody)
      → IsFaithful json (value_or tool.metadata [])
      → validate_tool tool ≡ ok tt
      → tool_is_storable tool ≡ true
      → (encode_variant json none (some tool) >>= decode_message_body json)
        ≡ ok (record { text = none; tool_output = some (normalise_tool tool) })
  unfolding validate_tool string_ptr decode_message_body
  tool_back tool faithful valid storable =
      let base = record no_columns {
        tool_name = string_ptr tool.tool_name;
        tool_call_id = string_ptr tool.tool_call_id;
        tool_text_output = encode_text tool.text;
      } in
      let cols = encode_image tool.image base in
      let f = image_frame tool.image base in
      let r = metadata_back tool.metadata cols faithful f.4 in
      rw (r.1)
        (ground (arith, f, r.2, image_back tool.image base r.0 refl, ptr_back tool.tool_call_id))

  variant_back :
      (text : Option TextBody) (tool : Option ToolOutputBody)
      → let b : MessageBody = record { text = text; tool_output = tool } in
        IsFaithful json (body_metadata b)
        → validate b ≡ ok tt
        → is_storable b ≡ true
        → (encode_message_body json b >>= decode_message_body json) ≡ ok (normalise b)
  unfolding validate
  variant_back none none faithful valid storable = cc
  variant_back (some t) (some tool) faithful valid storable = cc
  variant_back (some t) none faithful valid storable =
      unfold encode_message_body decode_message_body in ground arith
  variant_back none (some tool) faithful valid storable =
      unfold encode_message_body in rw valid (tool_back tool faithful valid (ground arith))

  -- A valid body whose distinguishing texts are not empty, with metadata that the JSON codec gives
  -- back, is read back from its columns as it was, a nil metadata map as an empty one.
  pub encode_decode :
      (b : MessageBody)
      → IsFaithful json (body_metadata b)
      → validate b ≡ ok tt
      → is_storable b ≡ true
      → (encode_message_body json b >>= decode_message_body json) ≡ ok (normalise b)
  encode_decode b faithful valid storable =
      variant_back b.text b.tool_output faithful valid storable
