-- ===== src/Store/Snapshot/Bodies.antt =====
-- The body of a row, decoded, encoded and kept again, as CreateSnapshot of internal/state/snapshot.go
-- does it: the copy has the body of the row.
use agent_state.Common.{
  String, ◌≡◌, refl, sym, ap, ◌∙◌, subst, inl, inr, Option, none, some, is_some, not, ◌&&◌,
  Bool-cases, arith, if◌then◌else◌,
}
use agent_state.Errors.{ok, err, plain, bind-eq-ok, ok-injective, Result-cases}
use agent_state.Message.{Metadata, MessageBody, ToolOutputBody, validate}
use agent_state.Message.Columns.{
  MapJson, MessageColumns, no_columns, string_ptr, encode_message_body, decode_message_body,
  decode_variant, decode_tool, decode_metadata, decode_image, decode_text, encode_metadata,
  encode_image, encode_text, encode_variant,
}
use agent_state.Message.Roundtrip.{ptr_back, image_frame}
use agent_state.Database.{Driver}
use agent_state.Database.Statements.{stored_columns}
use agent_state.Store.Snapshot.Same.{
  text_of, SameBody, text_kept, tool_kept, text_back, image_kept, metadata-Entries,
  unmarshalled-kept, metadata-Remarshalled,
}

module _ (json : MapJson) (d : Driver) where
  -- The body that a row with a tool output is decoded to.
  abbrev tool_body : String → Metadata → MessageColumns → MessageBody
  tool_body name m a = record {
    text = none;
    tool_output = some (record {
      tool_name = name;
      tool_call_id = text_of a.tool_call_id;
      metadata = some m;
      text = decode_text a.tool_text_output;
      image = decode_image a;
    });
  }

  tool_body-eq-ok :
      (name : String) (m : Metadata) (a : MessageColumns) {body : MessageBody}
      → (if not (is_some (decode_text a.tool_text_output)) && not (is_some (decode_image a))
          then err (plain "tool output missing variant")
          else ok (tool_body name m a))
        ≡ ok body
      → tool_body name m a ≡ body
  tool_body-eq-ok name m a h =
      elim (Bool-cases
        (not (is_some (decode_text a.tool_text_output)) && not (is_some (decode_image a)))) [
          | inl missing ↦ ground (arith, rw missing at h)
          | inr whole ↦ ok-injective (rw whole at h)
        ]

  -- A tool output that is encoded is one that Validate lets through.
  encode_tool-eq-ok :
      (t : ToolOutputBody) {sent : MessageColumns}
      → encode_message_body json (record { text = none; tool_output = some t }) ≡ ok sent
      → encode_variant json none (some t) ≡ ok sent
  unfolding encode_message_body
  encode_tool-eq-ok t h =
      elim (Result-cases (validate (record { text = none; tool_output = some t }))) [
        | inr (z, refused) ↦ ground (arith, rw refused at h)
        | inl (u, valid) ↦ rw valid at h
      ]

  -- The tool output that a row is decoded to, as it is encoded and kept again.
  tool_body-SameBody :
      (name : String) (m : Metadata) (a : MessageColumns) {sent kept : MessageColumns}
      → a.body_text ≡ none
      → a.tool_name ≡ some name
      → decode_metadata json a.tool_metadata ≡ ok m
      → encode_message_body json (tool_body name m a) ≡ ok sent
      → stored_columns d sent ≡ ok kept
      → SameBody json d a kept
  tool_body-SameBody name m a {sent} {kept} no_text named p e k =
      let call = string_ptr (text_of a.tool_call_id) in
      let text = encode_text (decode_text a.tool_text_output) in
      let plain_tool : MessageColumns = record no_columns {
        tool_name = string_ptr name;
        tool_call_id = call;
        tool_text_output = text;
      } in
      let base = encode_image (decode_image a) plain_tool in
      let frame = image_frame (decode_image a) plain_tool in
      let e₁ : encode_metadata json (some m) base ≡ ok sent = encode_tool-eq-ok _ e in
      let (same, again) = metadata-Remarshalled json d m base frame.4 e₁ k in
      subst (SameBody json d a) (sym same) (
        tool_kept m no_text frame.0 (ap text_of frame.1 ∙ ptr_back name ∙ sym (ap text_of named))
          (ap text_of frame.2 ∙ ptr_back (text_of a.tool_call_id))
          (ap text_of frame.3 ∙ text_back a.tool_text_output)
          (image_kept a (string_ptr name) call text) (metadata-Entries json d a.tool_metadata p)
          again)

  -- The tool output of a row.
  tool-SameBody :
      (name : String) (a : MessageColumns) {body : MessageBody} {sent kept : MessageColumns}
      → a.body_text ≡ none
      → a.tool_name ≡ some name
      → decode_tool json name a ≡ ok body
      → encode_message_body json body ≡ ok sent
      → stored_columns d sent ≡ ok kept
      → SameBody json d a kept
  tool-SameBody name a {body} {sent} no_text named h e k =
      let (m, p, h₁) = bind-eq-ok (decode_metadata json a.tool_metadata) _ h in
      tool_body-SameBody name m a no_text named p
        (subst (λ y. encode_message_body json y ≡ ok sent) (sym (tool_body-eq-ok name m a h₁)) e) k

  variant-SameBody :
      (a : MessageColumns) {body : MessageBody} {sent kept : MessageColumns}
      (text name : Option String)
      → a.body_text ≡ text
      → a.tool_name ≡ name
      → decode_variant json text name a ≡ ok body
      → encode_message_body json body ≡ ok sent
      → stored_columns d sent ≡ ok kept
      → SameBody json d a kept
  unfolding encode_message_body validate
  variant-SameBody a none none t n h e k = ground arith
  variant-SameBody a none (some name) t n h e k = tool-SameBody name a t n h e k
  variant-SameBody a {body} {sent} {kept} (some s) name t n h e k =
      let written : MessageBody = record {
        text = some (record { text = s });
        tool_output = none;
      } in
      let sent_text : MessageColumns = record no_columns { body_text = string_ptr s } in
      let made : sent_text ≡ sent =
        ok-injective (subst (λ y. encode_message_body json y ≡ ok sent) (sym (ok-injective h)) e) in
      let same : sent_text ≡ kept =
        unmarshalled-kept json d sent_text refl
          (subst (λ y. stored_columns d y ≡ ok kept) (sym made) k) in
      subst (SameBody json d a) same (text_kept s t (ptr_back s) refl)

  -- The columns of the body that a row is decoded to, as they are encoded and kept again.
  pub decoded-SameBody :
      (a : MessageColumns) {body : MessageBody} {sent kept : MessageColumns}
      → decode_message_body json a ≡ ok body
      → encode_message_body json body ≡ ok sent
      → stored_columns d sent ≡ ok kept
      → SameBody json d a kept
  unfolding decode_message_body
  decoded-SameBody a h e k = variant-SameBody a a.body_text a.tool_name refl refl h e k
