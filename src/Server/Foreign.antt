-- ===== src/Server/Foreign.antt =====
-- A page token that internal/server/server.go made for one listing, sent with another.
use agent_state.Common.{
  String, ◌≡◌, ◌≢◌, refl, false, ◌==◌, ==_iff, Bool-cases, inl, inr, is_empty_text,
}
use agent_state.Common.Int.{ℤ}
use agent_state.Errors.{Uuid, Result, ok, err, plain}
use agent_state.Database.{World, Driver}
use agent_state.Server.Handlers.{refusal, parse_uuid}
use agent_state.Server.Listings.{
  PageRequest, read_cursor, serve_list_ids, serve_list_snapshot_ids, read_conversation_page,
  read_snapshot_page,
}
use agent_state.Server.Status.{invalid_argument}
use agent_state.Token.{
  UuidText, TokenText, encode_conversation_page_token, decode_conversation_page_token,
  encode_snapshot_page_token, decode_snapshot_page_token,
}
use agent_state.Token.Roundtrip.{ReadsBack, conversation_token_roundtrip, snapshot_token_roundtrip}

read_cursor-foreign :
    (decode : String → Result (Uuid × ℤ)) (foreign : String) (id other : Uuid) (n : ℤ)
    (token : String)
    → is_empty_text token ≡ false
    → decode token ≡ ok (other, n)
    → other ≢ id
    → read_cursor decode foreign id token ≡ err (plain foreign)
read_cursor-foreign decode foreign id other n token full decoded differs =
    let ne : (other == id) ≡ false = elim (Bool-cases (other == id)) [
      | inl same ↦ absurd (differs ((==_iff other id).0 same))
      | inr ne ↦ ne
    ] in
    rw (full, decoded, ne) refl

module _ (u : UuidText) (c : TokenText) (back : ReadsBack u c) (d : Driver) (w : World)
    (req : PageRequest) (id other : Uuid) (n : ℤ) where
  -- Where the packages read back what they write, a token that was made for a page of one
  -- conversation is refused with InvalidArgument when the ids of another are asked for, and the
  -- database is not called.
  pub serve_list_ids-foreign :
      parse_uuid u req.listed_id ≡ ok id
      → encode_conversation_page_token u c other n ≡ ok req.page_token
      → other ≢ id
      → serve_list_ids u c d req w ≡ (
        refusal (record {
          code = invalid_argument;
          cause = plain "page_token does not match conversation";
        }),
        w,
      )
  unfolding serve_list_ids read_conversation_page
  serve_list_ids-foreign parsed sent differs =
      let (token, made, full, decoded) = conversation_token_roundtrip u c back other n in
      let same : token ≡ req.page_token = cc in
      rw
        (
          parsed,
          read_cursor-foreign (decode_conversation_page_token u c)
              "page_token does not match conversation" id other n req.page_token (rw (← same) full)
              (rw (← same) decoded) differs,
        )
        refl

  -- Where the packages read back what they write, a token that was made for a page of one snapshot is
  -- refused with InvalidArgument when the ids of another are asked for, and the database is not
  -- called.
  pub serve_list_snapshot_ids-foreign :
      parse_uuid u req.listed_id ≡ ok id
      → encode_snapshot_page_token u c other n ≡ ok req.page_token
      → other ≢ id
      → serve_list_snapshot_ids u c d req w ≡ (
        refusal (record {
          code = invalid_argument;
          cause = plain "page_token does not match snapshot";
        }),
        w,
      )
  unfolding serve_list_snapshot_ids read_snapshot_page
  serve_list_snapshot_ids-foreign parsed sent differs =
      let (token, made, full, decoded) = snapshot_token_roundtrip u c back other n in
      let same : token ≡ req.page_token = cc in
      rw
        (
          parsed,
          read_cursor-foreign (decode_snapshot_page_token u c) "page_token does not match snapshot"
              id other n req.page_token (rw (← same) full) (rw (← same) decoded) differs,
        )
        refl
