-- ===== src/Token/Roundtrip.antt =====
-- Decoding a page token of internal/state/pagination.go gives back what was encoded.
use agent_state.Common.{String, ◌≡◌, refl, false, is_empty_text}
use agent_state.Common.Int.{ℤ}
use agent_state.Errors.{Uuid, ok}
use agent_state.Message.Columns.{Bytes}
use agent_state.Token.{
  UuidText, TokenText, encode_conversation_page_token, decode_conversation_page_token,
  encode_snapshot_page_token, decode_snapshot_page_token,
}

-- What the code relies on: an id that was printed is parsed back; the payloads of printed ids are
-- marshalled to bytes that are read back; bytes are read back from base64, which is not empty for
-- the JSON of a payload.
pub record ReadsBack (u : UuidText) (c : TokenText) : Type 0 where
  pub parsed : (id : Uuid) → u.parse (u.print id) ≡ ok id
  pub decoded : (buf : Bytes) → c.decode_base64 (c.encode_base64 buf) ≡ ok buf
  pub conversation :
      (id : Uuid) (n : ℤ)
      → (buf : Bytes) × (c.marshal_conversation
            (record { conversation_id = u.print id; position = n })
          ≡ ok buf)
        × (c.unmarshal_conversation buf
            ≡ ok (record { conversation_id = u.print id; position = n }))
        × (is_empty_text (c.encode_base64 buf) ≡ false)
  pub snapshot :
      (id : Uuid) (n : ℤ)
      → (buf : Bytes) × (c.marshal_snapshot (record { snapshot_id = u.print id; order_index = n })
          ≡ ok buf)
        × (c.unmarshal_snapshot buf ≡ ok (record { snapshot_id = u.print id; order_index = n }))
        × (is_empty_text (c.encode_base64 buf) ≡ false)

module _ (u : UuidText) (c : TokenText) (back : ReadsBack u c) where
  -- Where the packages read back what they write, a conversation's page token is made, is not empty,
  -- which would ask for the first page, and is decoded to the id and the position it was made of.
  pub conversation_token_roundtrip :
      (id : Uuid) (n : ℤ)
      → (token : String) × (encode_conversation_page_token u c id n ≡ ok token)
        × (is_empty_text token ≡ false)
        × (decode_conversation_page_token u c token ≡ ok (id, n))
  unfolding encode_conversation_page_token decode_conversation_page_token
  conversation_token_roundtrip id n =
      let (buf, marshalled, read, full) = back.conversation id n in
      (
        c.encode_base64 buf,
        rw marshalled refl,
        full,
        rw (full, back.decoded buf) (rw read (rw (back.parsed id) refl)),
      )

  -- Where the packages read back what they write, a snapshot's page token is made, is not empty, which
  -- would ask for the first page, and is decoded to the id and the index it was made of.
  pub snapshot_token_roundtrip :
      (id : Uuid) (n : ℤ)
      → (token : String) × (encode_snapshot_page_token u c id n ≡ ok token)
        × (is_empty_text token ≡ false)
        × (decode_snapshot_page_token u c token ≡ ok (id, n))
  unfolding encode_snapshot_page_token decode_snapshot_page_token
  snapshot_token_roundtrip id n =
      let (buf, marshalled, read, full) = back.snapshot id n in
      (
        c.encode_base64 buf,
        rw marshalled refl,
        full,
        rw (full, back.decoded buf) (rw read (rw (back.parsed id) refl)),
      )
