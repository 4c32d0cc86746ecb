-- ===== src/Store/Range.antt =====
-- internal/state/range_ops.go: a range of a conversation's messages replaced or deleted.
use agent_state.Common.{
  ℕ, ◌+◌, Option, List, [], ◌∷◌, ◌++◌, map, length, take, drop, ◌&&◌, is_some, not, if◌then◌else◌,
}
use agent_state.Errors.{Uuid, ok, sentinel, invalid_range_spec}
use agent_state.Message.{Time}
use agent_state.Database.{Driver}
use agent_state.Database.Monad.{
  Db, ◌>>=◌, ◌>>◌, pure, raise, lift, wrapped, query, modify, tick, run_tx,
}
use agent_state.Database.Statements.{
  insert_item, select_order, delete_items, delete_messages, select_messages, update_counts,
}
use agent_state.Store.{ConversationMetadata, metadata_of, load_conversation_metadata_for_update}
use agent_state.Store.Cut.{
  Cut, empty_map, cut, slice, insert_at, collect_presence, mark_present, check_presence,
  ensure_unique, range_ends,
}

pub record ReplaceRangeSpec : Type 0 where
  pub from_id : Option Uuid
  pub to_id : Option Uuid
  pub insert_ids : List Uuid

pub record ReplaceRangeResult : Type 0 where
  pub metadata : ConversationMetadata
  pub replaced_message_ids : List Uuid
  pub inserted_message_ids : List Uuid

pub record DeleteRangeSpec : Type 0 where
  pub from_id : Option Uuid
  pub to_id : Option Uuid

pub record DeleteRangeResult : Type 0 where
  pub metadata : ConversationMetadata
  pub deleted_message_ids : List Uuid

module _ (d : Driver) where
  -- `fetchConversationOrder`
  unfoldable pub fetch_conversation_order : Uuid → Db (List Uuid)
  unfolding select_order
  fetch_conversation_order id =
      wrapped "load conversation order" (query d (λ t. ok (select_order id t)))

  abbrev pub range_keys : List Uuid → Db (List Uuid)
  range_keys ids w = (ok (d.map_keys w.calls ids), tick w)

  abbrev pub scan_ids : Uuid → List Uuid → Db (List Uuid)
  scan_ids id unique w =
      wrapped "verify message ids"
        (query d (λ t. ok (map (λ m. m.id) (d.scan_rows w.calls (select_messages id unique t))))) w

  -- `ensureMessagesExist`
  unfoldable pub ensure_messages_exist : Uuid → List Uuid → Db (Unit {0})
  unfolding collect_presence mark_present check_presence
  ensure_messages_exist id [] = pure tt
  ensure_messages_exist id (x ∷ xs) = do
    let found = collect_presence (x ∷ xs) [] empty_map
    rows ← scan_ids id found.0
    keys ← range_keys found.0
    lift (check_presence keys (mark_present rows found.1))

  unfoldable pub insert_items : Uuid → List Uuid → Db (Unit {0})
  insert_items id [] = pure tt
  insert_items id (x ∷ xs) =
      let rest = insert_items id xs in
      wrapped "insert conversation item" (insert_item d id x) >> rest

  abbrev pub clear_items : Uuid → Db (Unit {0})
  clear_items id = wrapped "clear conversation order" (modify d (λ t. ok (tt, delete_items id t)))

  -- `rewriteConversationOrder`
  unfoldable pub rewrite_conversation_order : Uuid → List Uuid → Db (Unit {0})
  unfolding insert_items
  rewrite_conversation_order id order = do clear_items id; insert_items id order

  abbrev pub insert_range : Uuid → List Uuid → Cut → Db (List Uuid)
  insert_range id [] c = pure c.working
  insert_range id (x ∷ xs) c = do
    ensure_messages_exist id (x ∷ xs)
    pure (insert_at c.insert_pos (x ∷ xs) c.working)

  -- The UPDATE that ends both operations.
  abbrev pub store_count : Uuid → ℕ → Time → Db ConversationMetadata
  store_count id count now = do
    counts ← wrapped "update conversation" (modify d (update_counts (λ _. count) id now))
    pure (metadata_of id counts)

  -- The transaction of ReplaceConversationMessagesRange.
  unfoldable pub replace_range_tx : Uuid → ReplaceRangeSpec → Time → Db ReplaceRangeResult
  replace_range_tx id spec now = do
    load_conversation_metadata_for_update d id
    order ← fetch_conversation_order id
    c ← lift (cut spec.from_id spec.to_id spec.insert_ids order)
    working ← insert_range id spec.insert_ids c
    lift (ensure_unique working)
    rewrite_conversation_order id working
    metadata ← store_count id (length working) now
    pure (record {
      metadata = metadata;
      replaced_message_ids = c.replaced;
      inserted_message_ids = spec.insert_ids;
    })

  unfoldable pub replace_conversation_messages_range :
      Uuid → ReplaceRangeSpec → Db ReplaceRangeResult
  unfolding run_tx
  replace_conversation_messages_range id spec =
      if not (is_some spec.from_id) && not (is_some spec.to_id)
      then raise (sentinel invalid_range_spec)
      else run_tx d (replace_range_tx id spec)

  -- `if len(deleted) > 0`
  abbrev pub delete_rows : Uuid → List Uuid → Db (Unit {0})
  delete_rows id [] = pure tt
  delete_rows id (x ∷ xs) =
      wrapped "delete messages" (modify d (λ t. ok (tt, delete_messages id (x ∷ xs) t)))

  -- The transaction of DeleteConversationMessagesRange.
  unfoldable pub delete_range_tx : Uuid → DeleteRangeSpec → Time → Db DeleteRangeResult
  delete_range_tx id spec now = do
    load_conversation_metadata_for_update d id
    order ← fetch_conversation_order id
    ends ← lift (range_ends spec.from_id spec.to_id order)
    let deleted = slice ends.0 (ends.1 + 1) order
    let remaining = take ends.0 order ++ drop (ends.1 + 1) order
    rewrite_conversation_order id remaining
    delete_rows id deleted
    metadata ← store_count id (length remaining) now
    pure (record { metadata = metadata; deleted_message_ids = deleted })

  unfoldable pub delete_conversation_messages_range : Uuid → DeleteRangeSpec → Db DeleteRangeResult
  unfolding run_tx
  delete_conversation_messages_range id spec =
      if not (is_some spec.from_id) && not (is_some spec.to_id)
      then raise (sentinel invalid_range_spec)
      else run_tx d (delete_range_tx id spec)
