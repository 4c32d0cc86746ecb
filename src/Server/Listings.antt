-- ===== src/Server/Listings.antt =====
-- internal/server/server.go: the handlers that list pages, and those of snapshots.
use agent_state.Common.{
  String, Option, none, some, List, map, length, ◌==◌, is_empty_text, if◌then◌else◌,
}
use agent_state.Common.Int.{ℤ}
use agent_state.Errors.{Uuid, Result, ok, err, plain, annotated, ◌>>=◌, ◌>>◌}
use agent_state.Message.{Time, Message}
use agent_state.Message.Columns.{MapJson}
use agent_state.Message.Digest.{Digest}
use agent_state.Page.{PageCursor, Page}
use agent_state.Database.{Snapshot, World, Driver}
use agent_state.Server.Converter.{to_int16}
use agent_state.Server.Handlers.{
  Reply, response, refusal, ProtoMetadata, ProtoMessage, serve, parse_uuid, parse_each,
  to_proto_message, to_proto_conversation_metadata,
}
use agent_state.Server.Status.{invalid_argument, internal, to_status_error}
use agent_state.Store.List.{
  MessageListFilter, list_conversation_messages, list_conversation_message_ids,
}
use agent_state.Store.Snapshot.{create_snapshot, list_snapshot_messages, list_snapshot_message_ids}
use agent_state.Token.{
  UuidText, TokenText, encode_conversation_page_token, decode_conversation_page_token,
  encode_snapshot_page_token, decode_snapshot_page_token,
}

-- The requests for a page: of a conversation or a snapshot, named by the first field.
pub record PageRequest : Type 0 where
  pub listed_id : String
  pub page_size : ℤ
  pub page_token : String

-- The request of ListConversationMessages; its roles are an enum, which is an int32.
pub record ListMessagesRequest : Type 0 where
  pub page : PageRequest
  pub roles : List ℤ
  pub kinds : List String

pub record CreateSnapshotRequest : Type 0 where
  pub conversation_id : String
  pub message_ids : List String

pub record ProtoSnapshot : Type 0 where
  pub snapshot_id : String
  pub conversation_id : String
  pub created_at : Time

-- The empty token is that of the last page.
pub record IdsResponse : Type 0 where
  pub message_ids : List String
  pub next_page_token : String

pub record MessagesResponse : Type 0 where
  pub messages : List ProtoMessage
  pub next_page_token : String

pub record ListMessagesResponse : Type 0 where
  pub metadata : ProtoMetadata
  pub listed : MessagesResponse

-- The response that could be made, its token included.
abbrev pub made_reply : {B : Type 0} → Result B → World → Reply B × World
made_reply (ok b) w = (response b, w)
made_reply (err e) w = (refusal (record { code = internal; cause = e }), w)

module _ {A B : Type 0} where
  -- The answer to a page that the store returned.
  abbrev pub answered_page : (A → Result B) → Result A × World → Reply B × World
  answered_page f (ok a, w) = made_reply (f a) w
  answered_page f (err e, w) = (refusal (to_status_error e), w)

  abbrev pub serve_page :
      {R : Type 0}
      → Result R
      → (R → World → Result A × World)
      → (R → A → Result B)
      → World
      → Reply B × World
  serve_page (ok r) call f w = answered_page (f r) (call r w)
  serve_page (err e) call f w = (refusal (record { code = invalid_argument; cause = e }), w)

-- `if tokenID != conversationID`
abbrev pub own_cursor : String → Uuid → Uuid × ℤ → Result (Option PageCursor)
own_cursor foreign id found =
    if found.0 == id then ok (some (record { after_position = found.1 })) else err (plain foreign)

-- `if token := req.GetPageToken(); token != ""`, with the text for the token of another listing.
abbrev pub read_cursor :
    (String → Result (Uuid × ℤ)) → String → Uuid → String → Result (Option PageCursor)
read_cursor decode foreign id token =
    let read : Result (Option PageCursor) = (do
      found ← annotated "invalid page_token" (decode token)
      own_cursor foreign id found) in
    if is_empty_text token then ok none else read

-- `if result.NextCursor != nil`
abbrev pub next_token : (ℤ → Result String) → Option PageCursor → Result String
next_token encode none = ok ""
next_token encode (some c) = annotated "encode page token" (encode c.after_position)

-- The filter of a request.
unfoldable pub read_filter : List ℤ → List String → MessageListFilter
unfolding to_int16
read_filter roles kinds = record { roles = map to_int16 roles; kinds = kinds }

module _ (u : UuidText) (c : TokenText) where
  unfoldable pub read_conversation_page : PageRequest → Result (Uuid × Option PageCursor)
  unfolding parse_uuid decode_conversation_page_token
  read_conversation_page req = do
    id ← annotated "conversation_id" (parse_uuid u req.listed_id)
    cursor ←
        read_cursor (decode_conversation_page_token u c) "page_token does not match conversation" id
          req.page_token
    ok (id, cursor)

  unfoldable pub read_snapshot_page : PageRequest → Result (Uuid × Option PageCursor)
  unfolding parse_uuid decode_snapshot_page_token
  read_snapshot_page req = do
    id ← annotated "snapshot_id" (parse_uuid u req.listed_id)
    cursor ←
        read_cursor (decode_snapshot_page_token u c) "page_token does not match snapshot" id
          req.page_token
    ok (id, cursor)

  unfoldable pub read_create_snapshot : CreateSnapshotRequest → Result (Uuid × List Uuid)
  unfolding parse_uuid
  read_create_snapshot req = do
    id ← annotated "conversation_id" (parse_uuid u req.conversation_id)
    if length req.message_ids == 0 then err (plain "message_ids must be provided") else ok tt
    ids ← annotated "message_ids" (parse_each u req.message_ids)
    ok (id, ids)

  -- `uuidsToStrings`
  abbrev pub uuids_to_strings : List Uuid → List String
  uuids_to_strings ids = map u.print ids

  abbrev pub to_proto_snapshot : Snapshot → ProtoSnapshot
  to_proto_snapshot s = record {
    snapshot_id = u.print s.id;
    conversation_id = u.print s.conversation_id;
    created_at = s.created_at;
  }

  abbrev pub ids_response : (ℤ → Result String) → Page Uuid → Result IdsResponse
  ids_response encode page = do
    token ← next_token encode page.next_cursor
    ok (record { message_ids = uuids_to_strings page.entries; next_page_token = token })

  abbrev pub messages_response : (ℤ → Result String) → Page Message → Result MessagesResponse
  messages_response encode page = do
    token ← next_token encode page.next_cursor
    ok (record { messages = map (to_proto_message u) page.entries; next_page_token = token })

  module _ (d : Driver) where
    -- `Server.ListConversationMessageIds`
    unfoldable pub serve_list_ids : PageRequest → World → Reply IdsResponse × World
    unfolding encode_conversation_page_token
    serve_list_ids req =
        serve_page (read_conversation_page req)
          (λ r. list_conversation_message_ids d r.0 req.page_size r.1)
          λ r a. ids_response (encode_conversation_page_token u c r.0) a.page

    -- `Server.ListSnapshotMessageIds`
    unfoldable pub serve_list_snapshot_ids : PageRequest → World → Reply IdsResponse × World
    unfolding encode_snapshot_page_token
    serve_list_snapshot_ids req =
        serve_page (read_snapshot_page req) (λ r. list_snapshot_message_ids d r.0 req.page_size r.1)
          λ r page. ids_response (encode_snapshot_page_token u c r.0) page

    -- `Server.ListConversationMessages`
    unfoldable pub serve_list :
        MapJson → ListMessagesRequest → World → Reply ListMessagesResponse × World
    unfolding encode_conversation_page_token to_proto_message read_filter
    serve_list json req =
        serve_page (read_conversation_page req.page)
          (λ r.
            list_conversation_messages json d r.0 (read_filter req.roles req.kinds)
              req.page.page_size r.1)
          λ r a. do
            listed ← messages_response (encode_conversation_page_token u c r.0) a.page
            ok (record { metadata = to_proto_conversation_metadata u a.metadata; listed = listed })

    -- `Server.ListSnapshotMessages`
    unfoldable pub serve_list_snapshot :
        MapJson → PageRequest → World → Reply MessagesResponse × World
    unfolding encode_snapshot_page_token to_proto_message
    serve_list_snapshot json req =
        serve_page (read_snapshot_page req)
          (λ r. list_snapshot_messages json d r.0 req.page_size r.1)
          λ r page. messages_response (encode_snapshot_page_token u c r.0) page

    -- `Server.CreateSnapshot`
    unfoldable pub serve_create_snapshot :
        MapJson → Digest → CreateSnapshotRequest → World → Reply ProtoSnapshot × World
    serve_create_snapshot json digest req =
        serve (read_create_snapshot req) (λ r. create_snapshot json digest d r.0 r.1)
          to_proto_snapshot
