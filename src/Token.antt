-- ===== src/Token.antt =====
-- internal/state/pagination.go: the page tokens, a position with the id of what is listed, as JSON in
-- base64. google/uuid, encoding/json at the two payloads and encoding/base64 are parameters.
pub mod Roundtrip
use agent_state.Common.{String, is_empty_text, if◌then◌else◌}
use agent_state.Common.Int.{ℤ}
use agent_state.Errors.{Uuid, Result, ok, err, plain, annotated, ◌>>=◌}
use agent_state.Message.Columns.{Bytes}

-- uuid.Parse and UUID.String
pub record UuidText : Type 0 where
  pub parse : String → Result Uuid
  pub print : Uuid → String

pub record ConversationPageToken : Type 0 where
  pub conversation_id : String
  pub position : ℤ

pub record SnapshotPageToken : Type 0 where
  pub snapshot_id : String
  pub order_index : ℤ

-- json.Marshal and json.Unmarshal at the payloads, and base64.RawURLEncoding
pub record TokenText : Type 0 where
  pub marshal_conversation : ConversationPageToken → Result Bytes
  pub unmarshal_conversation : Bytes → Result ConversationPageToken
  pub marshal_snapshot : SnapshotPageToken → Result Bytes
  pub unmarshal_snapshot : Bytes → Result SnapshotPageToken
  pub encode_base64 : Bytes → String
  pub decode_base64 : String → Result Bytes

module _ (u : UuidText) (c : TokenText) where
  -- `EncodeConversationPageToken`
  unfoldable pub encode_conversation_page_token : Uuid → ℤ → Result String
  encode_conversation_page_token id position = do
    buf ← c.marshal_conversation (record { conversation_id = u.print id; position = position })
    ok (c.encode_base64 buf)

  -- `DecodeConversationPageToken`
  unfoldable pub decode_conversation_page_token : String → Result (Uuid × ℤ)
  decode_conversation_page_token token =
      let decoded : Result (Uuid × ℤ) = (do
        data_bytes ← annotated "decode token" (c.decode_base64 token)
        payload ← annotated "unmarshal token" (c.unmarshal_conversation data_bytes)
        id ← annotated "parse conversation id" (u.parse payload.conversation_id)
        ok (id, payload.position)) in
      if is_empty_text token then err (plain "empty token") else decoded

  -- `EncodeSnapshotPageToken`
  unfoldable pub encode_snapshot_page_token : Uuid → ℤ → Result String
  encode_snapshot_page_token id order_idx = do
    buf ← c.marshal_snapshot (record { snapshot_id = u.print id; order_index = order_idx })
    ok (c.encode_base64 buf)

  -- `DecodeSnapshotPageToken`
  unfoldable pub decode_snapshot_page_token : String → Result (Uuid × ℤ)
  decode_snapshot_page_token token =
      let decoded : Result (Uuid × ℤ) = (do
        data_bytes ← annotated "decode token" (c.decode_base64 token)
        payload ← annotated "unmarshal token" (c.unmarshal_snapshot data_bytes)
        id ← annotated "parse snapshot id" (u.parse payload.snapshot_id)
        ok (id, payload.order_index)) in
      if is_empty_text token then err (plain "empty token") else decoded
