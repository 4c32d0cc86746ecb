-- ===== src/Tests/Ranges.antt =====
-- Range operations on the sample.
use agent_state.Common.{
  ◌≡◌, ◌⊎◌, List, refl, none, some, [], ◌∷◌, ◌==◌, ==_iff, Bool-cases, inl, inr, subst, All,
}
use agent_state.Database.{World}
use agent_state.Database.Statements.{
  select_order, select_messages, place_item, delete_items, delete_messages, update_counts,
}
use agent_state.Store.{load_conversation_metadata_for_update}
use agent_state.Store.Cut.{cut, ensure_unique, range_ends}
use agent_state.Store.Distinct.{IsDistinct}
use agent_state.Store.Range.{
  ReplaceRangeSpec, ReplaceRangeResult, DeleteRangeSpec, DeleteRangeResult, replace_range_tx,
  delete_range_tx, fetch_conversation_order, ensure_messages_exist, rewrite_conversation_order,
  replace_conversation_messages_range, delete_conversation_messages_range,
}
use agent_state.Store.Replaced.{Replaced, replace_range-Replaced}
use agent_state.Store.Names.{Has, NamesOwn}
use agent_state.Store.Operations.{Operation, run, replace, delete}
use agent_state.Store.Operations.Owned.{run-NamesOwn}
use agent_state.Store.Present.{VisitsKeys}
use agent_state.Tests.Messages.{empty_json}
use agent_state.Tests.Snapshots.{
  digest, each-Among, later_operations, quiet-ScansRows, world-IsWellFormed,
}
use agent_state.Store.Deleted.{Deleted, delete_range-Deleted}
use agent_state.Store.Unique.{ensure_unique-decides}
use agent_state.Errors.{Uuid, ok, err, sentinel, duplicate_message}
use agent_state.Tests.Sample.{quiet, row, tables, world}

abbrev swap_middle : ReplaceRangeSpec
swap_middle = record { from_id = some 12; to_id = some 12; insert_ids = 14 ∷ [] }

abbrev replaced : World
replaced = (replace_conversation_messages_range quiet 7 swap_middle world).1

abbrev replaced_result : ReplaceRangeResult
replaced_result = record {
  metadata = record { id = 7; message_count = 3; updated_at = 1000; version = 5 };
  replaced_message_ids = 12 ∷ [];
  inserted_message_ids = 14 ∷ [];
}

replaced_order : select_order 7 replaced.tables ≡ 11 ∷ 14 ∷ 13 ∷ []
unfolding select_order replace_conversation_messages_range replace_range_tx
    load_conversation_metadata_for_update fetch_conversation_order cut ensure_messages_exist
    select_messages ensure_unique rewrite_conversation_order place_item delete_items update_counts
replaced_order = refl

replace_range-Replaced_example : Replaced 7 swap_middle tables replaced_result replaced.tables
unfolding select_order replace_conversation_messages_range replace_range_tx
    load_conversation_metadata_for_update fetch_conversation_order cut ensure_messages_exist
    select_messages ensure_unique rewrite_conversation_order place_item delete_items update_counts
replace_range-Replaced_example = replace_range-Replaced quiet 7 swap_middle world refl

quiet-VisitsKeys : VisitsKeys quiet
quiet-VisitsKeys n keys = each-Among keys

tables-NamesOwn : NamesOwn tables
unfolding select_order
tables-NamesOwn id = elim (Bool-cases (7 == id)) [
  | inl same ↦
      subst (λ k. All (λ x. Has tables.messages k x) (select_order k tables)) ((==_iff 7 id).0 same)
        (
          (row 11 "a", inl refl, refl, refl),
          (
            (row 12 "b", inr (inl refl), refl, refl),
            ((row 13 "c", inr (inr (inl refl)), refl, refl), tt),
          ),
        )
  | inr other ↦ rw other tt
]

abbrev up_to_second : DeleteRangeSpec
up_to_second = record { from_id = none; to_id = some 12 }

abbrev deleted : World
deleted = (delete_conversation_messages_range quiet 7 up_to_second world).1

abbrev deleted_result : DeleteRangeResult
deleted_result = record {
  metadata = record { id = 7; message_count = 1; updated_at = 1000; version = 5 };
  deleted_message_ids = 11 ∷ 12 ∷ [];
}

delete_range-Deleted_example : Deleted 7 up_to_second tables deleted_result deleted.tables
unfolding select_order delete_conversation_messages_range delete_range_tx range_ends
    load_conversation_metadata_for_update fetch_conversation_order rewrite_conversation_order
    place_item delete_items delete_messages update_counts
delete_range-Deleted_example =
    delete_range-Deleted quiet 7 up_to_second world world-IsWellFormed tables-NamesOwn refl

-- A replacement that inserts a message, a deletion around it, and what `later_operations` does.
abbrev range_operations : List Operation
range_operations =
    replace 7 swap_middle ∷ delete 7 (record { from_id = none; to_id = some 11 }) ∷ later_operations

run-NamesOwn_example : NamesOwn (run empty_json digest quiet range_operations world).tables
run-NamesOwn_example =
    run-NamesOwn empty_json digest quiet quiet-ScansRows quiet-VisitsKeys range_operations world
      world-IsWellFormed tables-NamesOwn

abbrev twice : List Uuid
twice = 11 ∷ 12 ∷ 11 ∷ []

ensure_unique-decides_example :
    (IsDistinct twice × (ensure_unique twice ≡ ok tt))
    ⊎ ((¬ IsDistinct twice) × (ensure_unique twice ≡ err (sentinel duplicate_message)))
ensure_unique-decides_example = ensure_unique-decides twice
