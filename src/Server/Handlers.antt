-- ===== src/Server/Handlers.antt =====
-- internal/server/server.go: the handlers that write, and GetConversation. A response is what it
-- holds; google/uuid is a parameter.
use agent_state.Common.{
  ℕ, String, Option, none, some, List, [], ◌∷◌, map, length, ◌==◌, is_empty_text, if◌then◌else◌,
}
use agent_state.Common.Int.{ℤ}
use agent_state.Errors.{Uuid, Result, ok, err, plain, annotated, ◌>>=◌, ◌>>◌}
use agent_state.Token.{UuidText}
use agent_state.Message.{Time, Message, AppendMessageInput}
use agent_state.Message.Columns.{MapJson}
use agent_state.Database.{World, Driver}
use agent_state.Server.{ProtoBody, ProtoInput}
use agent_state.Server.Converter.{from_proto_append_message, to_proto_message_body}
use agent_state.Server.Status.{StatusError, invalid_argument, to_status_error}
use agent_state.Store.{ConversationMetadata, get_conversation_metadata}
use agent_state.Store.Append.{append_conversation_messages}
use agent_state.Store.Range.{
  ReplaceRangeSpec, DeleteRangeSpec, replace_conversation_messages_range,
  delete_conversation_messages_range,
}

pub data Reply (A : Type 0) : Type 0 where
  response : A → Reply A
  refusal : StatusError → Reply A

pub record ProtoMetadata : Type 0 where
  pub conversation_id : String
  pub message_count : ℕ
  pub updated_at : Time

pub record ProtoMessage : Type 0 where
  pub id : String
  pub conversation_id : String
  pub role : ℤ
  pub kind : String
  pub body : ProtoBody
  pub created_at : Time

pub record AppendRequest : Type 0 where
  pub conversation_id : String
  pub messages : List (Option ProtoInput)

pub record AppendResponse : Type 0 where
  pub metadata : ProtoMetadata
  pub appended : List ProtoMessage

-- The request of a deletion, and what that of a replacement has in common with it.
pub record RangeRequest : Type 0 where
  pub conversation_id : String
  pub from_message_id : String
  pub to_message_id : String

pub record ReplaceRequest : Type 0 where
  pub range : RangeRequest
  pub new_message_ids : List String

-- The two range responses; that of a deletion has no inserted ids.
pub record RangeResponse : Type 0 where
  pub metadata : ProtoMetadata
  pub removed_message_ids : List String
  pub inserted_message_ids : List String

module _ {A B : Type 0} where
  -- The answer to what the store returned.
  abbrev pub answered : (A → B) → Result A × World → Reply B × World
  answered f (ok a, w) = (response (f a), w)
  answered f (err e, w) = (refusal (to_status_error e), w)

  -- The call of the store for a request that was read, or the refusal of one that was not.
  abbrev pub serve :
      {R : Type 0} → Result R → (R → World → Result A × World) → (A → B) → World → Reply B × World
  serve (ok r) call f w = answered f (call r w)
  serve (err e) call f w = (refusal (record { code = invalid_argument; cause = e }), w)

module _ (u : UuidText) where
  unfoldable pub parse_uuid : String → Result Uuid
  parse_uuid value = if is_empty_text value then err (plain "value is empty") else u.parse value

  -- An id that may be left empty.
  abbrev pub parse_optional : String → Result (Option Uuid)
  parse_optional value =
      let parsed : Result (Option Uuid) = (do id ← parse_uuid value; ok (some id)) in
      if is_empty_text value then ok none else parsed

  abbrev pub parse_each : List String → Result (List Uuid)
  parse_each [] = ok []
  parse_each (x ∷ xs) = do id ← parse_uuid x; ids ← parse_each xs; ok (id ∷ ids)

  abbrev pub to_proto_conversation_metadata : ConversationMetadata → ProtoMetadata
  to_proto_conversation_metadata m = record {
    conversation_id = u.print m.id;
    message_count = m.message_count;
    updated_at = m.updated_at;
  }

  unfoldable pub to_proto_message : Message → ProtoMessage
  to_proto_message m = record {
    id = u.print m.id;
    conversation_id = u.print m.conversation_id;
    role = m.role;
    kind = m.kind;
    body = to_proto_message_body m.body;
    created_at = m.created_at;
  }

  abbrev pub read_inputs : List (Option ProtoInput) → Result (List AppendMessageInput)
  read_inputs [] = ok []
  read_inputs (p ∷ ps) = do
    input ← annotated "message" (from_proto_append_message p)
    rest ← read_inputs ps
    ok (input ∷ rest)

  unfoldable pub read_append : AppendRequest → Result (Uuid × List AppendMessageInput)
  unfolding parse_uuid from_proto_append_message
  read_append req = do
    id ← annotated "conversation_id" (parse_uuid req.conversation_id)
    if length req.messages == 0 then err (plain "messages must be provided") else ok tt
    inputs ← read_inputs req.messages
    ok (id, inputs)

  -- The ids of a range request, read in the order of the code.
  unfoldable pub read_range : RangeRequest → Result (Uuid × Option Uuid × Option Uuid)
  unfolding parse_uuid
  read_range req = do
    id ← annotated "conversation_id" (parse_uuid req.conversation_id)
    from ← annotated "from_message_id" (parse_optional req.from_message_id)
    to ← annotated "to_message_id" (parse_optional req.to_message_id)
    ok (id, from, to)

  unfoldable pub read_replace : ReplaceRequest → Result (Uuid × ReplaceRangeSpec)
  unfolding parse_uuid read_range
  read_replace req = do
    range ← read_range req.range
    ids ← annotated "new_message_ids" (parse_each req.new_message_ids)
    ok (range.0, record { from_id = range.1; to_id = range.2; insert_ids = ids })

  unfoldable pub read_delete : RangeRequest → Result (Uuid × DeleteRangeSpec)
  unfolding read_range
  read_delete req = do
    range ← read_range req
    ok (range.0, record { from_id = range.1; to_id = range.2 })

  module _ (d : Driver) where
    -- `Server.AppendConversationMessages`
    unfoldable pub serve_append : MapJson → AppendRequest → World → Reply AppendResponse × World
    serve_append json req =
        serve (read_append req) (λ r. append_conversation_messages json d r.0 r.1)
          λ a. record {
            metadata = to_proto_conversation_metadata a.0;
            appended = map to_proto_message a.1;
          }

    -- `Server.ReplaceConversationMessagesRange`
    unfoldable pub serve_replace : ReplaceRequest → World → Reply RangeResponse × World
    serve_replace req =
        serve (read_replace req) (λ r. replace_conversation_messages_range d r.0 r.1)
          λ a. record {
            metadata = to_proto_conversation_metadata a.metadata;
            removed_message_ids = map u.print a.replaced_message_ids;
            inserted_message_ids = map u.print a.inserted_message_ids;
          }

    -- `Server.DeleteConversationMessagesRange`
    unfoldable pub serve_delete : RangeRequest → World → Reply RangeResponse × World
    serve_delete req =
        serve (read_delete req) (λ r. delete_conversation_messages_range d r.0 r.1)
          λ a. record {
            metadata = to_proto_conversation_metadata a.metadata;
            removed_message_ids = map u.print a.deleted_message_ids;
            inserted_message_ids = [];
          }

    -- `Server.GetConversation`
    unfoldable pub serve_get : String → World → Reply ProtoMetadata × World
    serve_get id =
        serve (annotated "conversation_id" (parse_uuid id)) (get_conversation_metadata d)
          to_proto_conversation_metadata
