-- ===== src/Tests/Service.antt =====
-- The listings of the service on the sample, with page tokens in unary.
use agent_state.Common.{String, ◌≡◌, refl, ◌⊎◌, [], ◌∷◌, map, arith, is_empty_text, false}
use agent_state.Common.Int.{pos}
use agent_state.Errors.{ok, plain}
use agent_state.Database.{World}
use agent_state.Database.Statements.{Counts, select_counts, select_messages, select_order}
use agent_state.Server.Foreign.{serve_list_ids-foreign, serve_list_snapshot_ids-foreign}
use agent_state.Server.Handlers.{response, refusal, parse_uuid}
use agent_state.Server.Listings.{
  PageRequest, CreateSnapshotRequest, serve_list_ids, serve_list_snapshot_ids,
  serve_create_snapshot, read_create_snapshot,
}
use agent_state.Server.Paged.{serve_list_ids-cover, snapshot_served}
use agent_state.Server.Paging.{fetch_ids}
use agent_state.Server.Refusals.{serve_create_snapshot-refusal}
use agent_state.Server.Status.{internal, invalid_argument, not_found, to_status_error}
use agent_state.Store.Operations.{run}
use agent_state.Store.Snapshot.{
  create_snapshot, create_snapshot_tx, unique_uuids, fetch_rows, check_fetched,
}
use agent_state.Database.Monad.{run_tx}
use agent_state.Database.Snapshots.{select_conversation}
use agent_state.Tests.Codec.{
  unary_names, unary_tokens, unary-ReadsBack, ticked, ticks, behind_ticks,
}
use agent_state.Tests.Messages.{empty_json}
use agent_state.Tests.Sample.{quiet, tables, world}
use agent_state.Tests.Snapshots.{
  digest, asked, held, later_operations, quiet-ScansRows, world-IsWellFormed, created,
}
use agent_state.Token.{
  encode_conversation_page_token, decode_conversation_page_token, encode_snapshot_page_token,
  decode_snapshot_page_token,
}
use agent_state.Token.Roundtrip.{conversation_token_roundtrip, snapshot_token_roundtrip}

abbrev counts : Counts
counts = record { message_count = 3; updated_at = 5; version = 4 }

parse_seven : parse_uuid unary_names (unary_names.print 7) ≡ ok 7
unfolding parse_uuid unary_names ticks ticked
parse_seven = refl

parse_taken : parse_uuid unary_names (unary_names.print 100) ≡ ok 100
unfolding parse_uuid unary_names ticks ticked
parse_taken = refl

serve_list_ids-cover_example :
    (fetch_ids
      (λ token.
        serve_list_ids unary_names unary_tokens quiet
          (record { listed_id = unary_names.print 7; page_size = pos 2; page_token = token }))
      4
      ""
      world).0
    ≡ response (map unary_names.print (select_order 7 tables))
unfolding select_counts
serve_list_ids-cover_example =
    serve_list_ids-cover unary_names unary_tokens unary-ReadsBack quiet (λ n. refl)
      (unary_names.print 7) 7 (pos 2) counts world 4 parse_seven world-IsWellFormed refl
      (omega arith)

snapshot_served_example :
    (fetch_ids
      (λ token.
        serve_list_snapshot_ids unary_names unary_tokens quiet
          (record { listed_id = unary_names.print 100; page_size = pos 2; page_token = token }))
      4
      ""
      (run empty_json digest quiet later_operations held)).0
    ≡ response (map unary_names.print asked)
snapshot_served_example =
    snapshot_served empty_json digest unary_names unary_tokens unary-ReadsBack quiet quiet quiet
      (λ n. refl) 7 asked (pos 2) later_operations 4 world quiet-ScansRows world-IsWellFormed
      created parse_taken (omega arith)

conversation_token_roundtrip_example :
    (token : String) × (encode_conversation_page_token unary_names unary_tokens 7 (pos 3)
      ≡ ok token)
    × (is_empty_text token ≡ false)
    × (decode_conversation_page_token unary_names unary_tokens token ≡ ok (7, pos 3))
conversation_token_roundtrip_example =
    conversation_token_roundtrip unary_names unary_tokens unary-ReadsBack 7 (pos 3)

snapshot_token_roundtrip_example :
    (token : String) × (encode_snapshot_page_token unary_names unary_tokens 9 (pos 0) ≡ ok token)
    × (is_empty_text token ≡ false)
    × (decode_snapshot_page_token unary_names unary_tokens token ≡ ok (9, pos 0))
snapshot_token_roundtrip_example =
    snapshot_token_roundtrip unary_names unary_tokens unary-ReadsBack 9 (pos 0)

-- The token of another listing.
abbrev foreign_request : PageRequest
foreign_request = record { listed_id = "ixxxxxxx;"; page_size = pos 2; page_token = "pxxx;ixx;" }

serve_list_ids-foreign_example :
    serve_list_ids unary_names unary_tokens quiet foreign_request world ≡ (
      refusal (record {
        code = invalid_argument;
        cause = plain "page_token does not match conversation";
      }),
      world,
    )
unfolding parse_uuid unary_names unary_tokens ticks ticked behind_ticks
    encode_conversation_page_token
serve_list_ids-foreign_example =
    serve_list_ids-foreign unary_names unary_tokens unary-ReadsBack quiet world foreign_request 7 2
      (pos 3) refl refl (λ e. ground arith)

serve_list_snapshot_ids-foreign_example :
    serve_list_snapshot_ids unary_names unary_tokens quiet foreign_request world ≡ (
      refusal
          (record { code = invalid_argument; cause = plain "page_token does not match snapshot" }),
      world,
    )
unfolding parse_uuid unary_names unary_tokens ticks ticked behind_ticks encode_snapshot_page_token
serve_list_snapshot_ids-foreign_example =
    serve_list_snapshot_ids-foreign unary_names unary_tokens unary-ReadsBack quiet world
      foreign_request 7 2 (pos 3) refl refl (λ e. ground arith)

-- A snapshot of a message that does not exist, beside one that does.
abbrev missing : CreateSnapshotRequest
missing = record { conversation_id = "ixxxxxxx;"; message_ids = "ixxxxxxxxxxx;" ∷ "ix;" ∷ [] }

abbrev after_missing : World
after_missing =
    (serve_create_snapshot unary_names unary_tokens quiet empty_json digest missing world).1

serve_create_snapshot-refusal_example : (after_missing.tables ≡ tables) ⊎ (not_found ≡ internal)
unfolding parse_uuid unary_names ticks serve_create_snapshot read_create_snapshot create_snapshot
    create_snapshot_tx select_conversation unique_uuids fetch_rows check_fetched select_messages
    run_tx to_status_error
serve_create_snapshot-refusal_example =
    serve_create_snapshot-refusal unary_names unary_tokens empty_json digest quiet missing world
      refl
