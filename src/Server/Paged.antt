-- ===== src/Server/Paged.antt =====
-- The two listings of ids of internal/server/server.go, read page after page through the service.
use agent_state.Common.{ℕ, String, ◌<◌, ◌≡◌, refl, ap, ◌∙◌, Option, map, length, List, arith}
use agent_state.Common.Int.{ℤ}
use agent_state.Errors.{Uuid, Result, ok, err}
use agent_state.Message.Columns.{MapJson}
use agent_state.Message.Digest.{Digest}
use agent_state.Page.{PageCursor, Page}
use agent_state.Database.{Item, Snapshot, World, Driver}
use agent_state.Database.Among.{ScansRows}
use agent_state.Database.Monad.{◌>>=◌, continue, pure}
use agent_state.Database.Ordered.{IsAscending, order_by-eq_of_ascending}
use agent_state.Database.Snapshots.{select_snapshot}
use agent_state.Database.Statements.{Counts, select_counts, select_order, in_conversation}
use agent_state.Database.WellFormed.{IsWellFormed, Pairwise-filter_by}
use agent_state.Server.Handlers.{response, parse_uuid}
use agent_state.Server.Listings.{
  PageRequest, answered_page, ids_response, read_cursor, serve_list_ids, serve_list_snapshot_ids,
  read_conversation_page, read_snapshot_page,
}
use agent_state.Server.Paging.{fetch_ids, fetch_ids-cover}
use agent_state.Store.List.{MessageIdListResult, list_conversation_message_ids, page_limit}
use agent_state.Store.Operations.{Operation, run}
use agent_state.Store.Snapshot.{create_snapshot, list_snapshot_message_ids}
use agent_state.Store.Snapshot.Held.{snapshot_after}
use agent_state.Store.Snapshot.Pages.{copies_of, copied_ids, list_ids-Serves as snapshot_ids-Serves}
use agent_state.Store.Walk.{IsQuiet, items_of, page_limit-pos, list_ids-Serves}
use agent_state.Token.{
  UuidText, TokenText, encode_conversation_page_token, decode_conversation_page_token,
  encode_snapshot_page_token, decode_snapshot_page_token,
}
use agent_state.Token.Roundtrip.{ReadsBack, conversation_token_roundtrip, snapshot_token_roundtrip}

-- The page of an answer with metadata.
page_of_result :
    {B : Type 0} (f : Page Uuid → Result B) (r : Result MessageIdListResult × World)
    → answered_page (λ a. f a.page) r ≡ answered_page f (continue (λ a. pure a.page) r)
page_of_result f (ok a, w) = refl
page_of_result f (err e, w) = refl

module _ (u : UuidText) (c : TokenText) (back : ReadsBack u c) (d : Driver) (quiet : IsQuiet d)
    (text : String) (id : Uuid) (page_size : ℤ) where
  abbrev page_request : String → PageRequest
  page_request token = record { listed_id = text; page_size = page_size; page_token = token }

  list_ids_calls :
      parse_uuid u text ≡ ok id
      → (token : String) (cursor : Option PageCursor)
      → read_cursor
          (decode_conversation_page_token u c)
          "page_token does not match conversation"
          id
          token
        ≡ ok cursor
      → (w : World)
      → serve_list_ids u c d (page_request token) w
        ≡ answered_page
            (ids_response u c (encode_conversation_page_token u c id))
            ((list_conversation_message_ids d id page_size cursor >>= λ result. pure result.page) w)
  unfolding serve_list_ids read_conversation_page
  list_ids_calls parsed token cursor read w =
      rw (parsed, read)
        (page_of_result (ids_response u c (encode_conversation_page_token u c id))
          (list_conversation_message_ids d id page_size cursor w))

  -- A client of the service that sends back each token of ListConversationMessageIds has the texts
  -- of the conversation's ids in order: where the tables are well formed, the conversation exists,
  -- no call is refused, the requests outnumber its items, and google/uuid, encoding/json and
  -- encoding/base64 read back what they write.
  pub serve_list_ids-cover :
      (counts : Counts) (w : World) (fuel : ℕ)
      → parse_uuid u text ≡ ok id
      → IsWellFormed w.tables w.sequence
      → select_counts id w.tables ≡ ok counts
      → length (items_of id w.tables) < fuel
      → (fetch_ids (λ token. serve_list_ids u c d (page_request token)) fuel "" w).0
        ≡ response (map u.print (select_order id w.tables))
  unfolding select_order
  serve_list_ids-cover counts w fuel parsed v found enough =
      let asc = Pairwise-filter_by _ (in_conversation id) w.tables.items v.ascending in
      fetch_ids-cover u c id "page_token does not match conversation"
        (encode_conversation_page_token u c id) (decode_conversation_page_token u c)
        (conversation_token_roundtrip u c back id) _
        (λ token. serve_list_ids u c d (page_request token)) (list_ids_calls parsed)
        (λ i. i.message_id) (λ i. i.position) (page_limit page_size) (items_of id w.tables) w.tables
        (list_ids-Serves d quiet id page_size counts w.tables found asc) fuel w refl
        (page_limit-pos page_size) asc enough
      ∙ rw (order_by-eq_of_ascending (λ (i : Item). i.position) (items_of id w.tables) asc) refl

  snapshot_ids_calls :
      parse_uuid u text ≡ ok id
      → (token : String) (cursor : Option PageCursor)
      → read_cursor (decode_snapshot_page_token u c) "page_token does not match snapshot" id token
        ≡ ok cursor
      → (w : World)
      → serve_list_snapshot_ids u c d (page_request token) w
        ≡ answered_page
            (ids_response u c (encode_snapshot_page_token u c id))
            (list_snapshot_message_ids d id page_size cursor w)
  unfolding serve_list_snapshot_ids read_snapshot_page
  snapshot_ids_calls parsed token cursor read w = rw (parsed, read) refl

  serve_snapshot_ids-cover :
      (s : Snapshot) (w : World) (fuel : ℕ)
      → parse_uuid u text ≡ ok id
      → select_snapshot id w.tables ≡ ok s
      → IsAscending (λ i. i.order_idx) (copies_of id w.tables)
      → length (copies_of id w.tables) < fuel
      → (fetch_ids (λ token. serve_list_snapshot_ids u c d (page_request token)) fuel "" w).0
        ≡ response (map u.print (copied_ids id w.tables))
  serve_snapshot_ids-cover s w fuel parsed found asc enough =
      fetch_ids-cover u c id "page_token does not match snapshot"
        (encode_snapshot_page_token u c id) (decode_snapshot_page_token u c)
        (snapshot_token_roundtrip u c back id) (list_snapshot_message_ids d id page_size)
        (λ token. serve_list_snapshot_ids u c d (page_request token)) (snapshot_ids_calls parsed)
        (λ i. i.message_id) (λ i. i.order_idx) (page_limit page_size) (copies_of id w.tables)
        w.tables (snapshot_ids-Serves d quiet id page_size s w.tables found asc) fuel w refl
        (page_limit-pos page_size) asc enough

-- A snapshot through the service: after its creation and any operations, by any driver, whether they
-- return or fail, a client that sends back each token of ListSnapshotMessageIds has the texts of the
-- ids that were asked for, in order. The tables are well formed before it is created, a query returns
-- rows of its result in some order, the calls of the reader are not refused and outnumber the ids,
-- and google/uuid, encoding/json and encoding/base64 read back what they write.
pub snapshot_served :
    (json : MapJson) (digest : Digest) (u : UuidText) (c : TokenText) (back : ReadsBack u c)
    (d later reader : Driver) (quiet : IsQuiet reader) (id : Uuid) (ids : List Uuid) (page_size : ℤ)
    (ops : List Operation) (fuel : ℕ) (w : World) {s : Snapshot} {w' : World}
    → ScansRows d
    → IsWellFormed w.tables w.sequence
    → create_snapshot json digest d id ids w ≡ (ok s, w')
    → parse_uuid u (u.print s.id) ≡ ok s.id
    → length ids < fuel
    → (fetch_ids
        (λ token.
          serve_list_snapshot_ids u c reader
            (record { listed_id = u.print s.id; page_size = page_size; page_token = token }))
        fuel
        ""
        (run json digest later ops w')).0
      ≡ response (map u.print ids)
snapshot_served json digest u c back d later reader quiet id ids page_size ops fuel w {s} {w'} scans
      v h parsed enough =
    let after = run json digest later ops w' in
    let (found, same, asc, count) = snapshot_after json digest d later id ids ops w scans v h in
    serve_snapshot_ids-cover u c back reader quiet (u.print s.id) s.id page_size s after fuel parsed
      found asc (omega arith)
    ∙ ap (λ xs. response (map u.print xs)) same
