-- ===== src/Tests/Snapshots.antt =====
-- Snapshots of the sample's conversation, and operations after them.
use agent_state.Common.{◌≡◌, refl, none, some, List, [], ◌∷◌, inl, inr, All, arith}
use agent_state.Errors.{Uuid, ok}
use agent_state.Message.Digest.{Digest, marshal_deterministic_json}
use agent_state.Message.Columns.{encode_message_body, decode_message_body}
use agent_state.Message.Row.{to_domain}
use agent_state.Message.{validate}
use agent_state.Database.{Snapshot, World}
use agent_state.Database.Among.{Among, ScansRows}
use agent_state.Database.Monad.{run_tx}
use agent_state.Database.Snapshots.{
  insert_snapshot, insert_snapshot_item, select_conversation, select_snapshot,
}
use agent_state.Database.Statements.{select_messages}
use agent_state.Database.WellFormed.{IsWellFormed, All-map}
use agent_state.Store.Snapshot.{
  create_snapshot, create_snapshot_tx, copy_each, copy_message, fetch_rows, check_fetched,
  unique_uuids,
}
use agent_state.Store.Snapshot.Created.{Created, create_snapshot-Created}
use agent_state.Store.Snapshot.Pages.{copies_of}
use agent_state.Store.Operations.{Operation, run, delete, replace, append, snapshot}
use agent_state.Store.Operations.Schema.{run-IsWellFormed}
use agent_state.Store.Operations.Refined.{WritesEach, snapshots_of, run-Refines}
use agent_state.Store.Operations.Frozen.{run-Stands}
use agent_state.Tests.Messages.{empty_json}
use agent_state.Tests.Sample.{quiet, tables, world}

abbrev pub digest : Digest
digest = record { marshal = λ p. ok "{}"; sha256_hex = λ buf. "44136fa3" }

abbrev pub asked : List Uuid
asked = 13 ∷ 11 ∷ 13 ∷ []

abbrev pub held : World
held = (create_snapshot empty_json digest quiet 7 asked world).1

abbrev pub taken : Snapshot
taken = record { id = 100; conversation_id = 7; created_at = 1000 }

-- Each element of a list is among its elements.
pub each-Among : {A : Type 0} (xs : List A) → All (λ x. Among x xs) xs
each-Among [] = tt
each-Among (x ∷ xs) = (inl refl, All-map _ _ xs (λ y m. inr m) (each-Among xs))

pub quiet-ScansRows : ScansRows quiet
quiet-ScansRows n rows = each-Among rows

pub world-IsWellFormed : IsWellFormed world.tables world.sequence
world-IsWellFormed = record {
  passed = (omega arith, (omega arith, (omega arith, tt)));
  ascending = ((omega arith, (omega arith, tt)), ((omega arith, tt), (tt, tt)));
  present = (refl, (refl, (refl, tt)));
  messages = ((refl, (refl, (refl, tt))), ((refl, (refl, tt)), ((refl, tt), (tt, tt))));
  entries = ((refl, (refl, tt)), ((refl, tt), (tt, tt)));
  copies = tt;
}

pub created : create_snapshot empty_json digest quiet 7 asked world ≡ (ok taken, held)
unfolding create_snapshot create_snapshot_tx select_conversation unique_uuids fetch_rows
    check_fetched insert_snapshot copy_each copy_message to_domain decode_message_body validate
    marshal_deterministic_json encode_message_body insert_snapshot_item run_tx select_messages
created = refl

create_snapshot-Created_example :
    Created empty_json digest quiet 7 asked 1000 tables taken held.tables
create_snapshot-Created_example =
    create_snapshot-Created empty_json digest quiet 7 asked world quiet-ScansRows created

-- A deletion, a replacement that fails, and another snapshot.
abbrev pub later_operations : List Operation
later_operations =
    delete 7 (record { from_id = some 11; to_id = some 13 })
    ∷ replace 7 (record { from_id = none; to_id = none; insert_ids = [] })
    ∷ snapshot 7 (14 ∷ [])
    ∷ append 7 []
    ∷ []

run-IsWellFormed_example :
    IsWellFormed
      (run empty_json digest quiet later_operations world).tables
      (run empty_json digest quiet later_operations world).sequence
run-IsWellFormed_example =
    run-IsWellFormed empty_json digest quiet later_operations world world-IsWellFormed

run-Stands_example :
    (select_snapshot 100 (run empty_json digest quiet later_operations held).tables
      ≡ select_snapshot 100 held.tables)
    × (copies_of 100 (run empty_json digest quiet later_operations held).tables
        ≡ copies_of 100 held.tables)
unfolding create_snapshot create_snapshot_tx select_conversation unique_uuids fetch_rows
    check_fetched insert_snapshot copy_each copy_message to_domain decode_message_body validate
    marshal_deterministic_json encode_message_body insert_snapshot_item run_tx select_messages
run-Stands_example = run-Stands empty_json digest quiet 100 later_operations held refl

run-Refines_example :
    WritesEach later_operations
      (snapshots_of world.tables)
      (snapshots_of (run empty_json digest quiet later_operations world).tables)
run-Refines_example =
    run-Refines empty_json digest quiet later_operations world quiet-ScansRows world-IsWellFormed
