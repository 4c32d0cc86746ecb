-- ===== src/Store/Snapshot.antt =====
-- internal/state/snapshot.go: a copy of messages that later operations leave alone, and its pages.
pub mod Fetched
pub mod Same
pub mod Bodies
pub mod Copies
pub mod Created
pub mod Pages
pub mod Held
use agent_state.Common.{ℕ, suc, Option, none, some, List, [], ◌∷◌, ◌++◌, is_some, if◌then◌else◌}
use agent_state.Common.Int.{ℤ}
use agent_state.Errors
use agent_state.Errors.{
  Uuid, Result, ok, err, Err, sentinel, no_rows, plain, with_id, Sentinel, conversation_not_found,
  message_not_found, snapshot_not_found, annotated,
}
use agent_state.Message.{Time, Message}
use agent_state.Message.Columns.{
  MapJson, Bytes, MessageColumns, encode_message_body, decode_message_body,
}
use agent_state.Message.Digest.{Digest, marshal_deterministic_json}
use agent_state.Message.Row.{MessageRow, to_domain}
use agent_state.Page.{PageCursor, Page, scan_page}
use agent_state.Database.{Snapshot, SnapshotItem, Tables, World, Driver}
use agent_state.Database.Monad.{
  Db, ◌>>=◌, ◌>>◌, pure, raise, lift, wrapped, query, modify, new_uuid, run_tx,
}
use agent_state.Database.Snapshots.{
  select_conversation, insert_snapshot, insert_snapshot_item, select_snapshot, select_snapshot_page,
}
use agent_state.Database.Statements.{select_messages}
use agent_state.Store.Cut.{IdMap, empty_map, assign}
use agent_state.Store.List.{page_limit}

-- `if errors.Is(err, pgx.ErrNoRows) { return s }`, after a query that returns no other error of the
-- code's.
abbrev pub missing_as {ℓ} : {A : Type ℓ} → Sentinel → Result A → Result A
missing_as s (ok a) = ok a
missing_as s (err no_rows) = err (sentinel s)
missing_as s (err (Err.sentinel x)) = err (Err.sentinel x)
missing_as s (err (Err.plain m)) = err (Err.plain m)
missing_as s (err (Err.wrap m e)) = err (Err.wrap m e)
missing_as s (err (Err.with_id e i)) = err (Err.with_id e i)
missing_as s (err (Err.external m)) = err (Err.external m)

abbrev pub or_missing {ℓ} : {A : Type ℓ} → Sentinel → Result A × World → Result A × World
or_missing s (r, w) = (missing_as s r, w)

-- `uniqueUUIDs`
unfoldable pub unique_from : List Uuid → IdMap (Unit {0}) → List Uuid → List Uuid
unique_from [] seen unique = unique
unique_from (x ∷ xs) seen unique =
    let next = unique_from xs (assign seen x tt) (unique ++ x ∷ []) in
    let same = unique_from xs seen unique in if is_some (seen x) then same else next

unfoldable pub unique_uuids : List Uuid → List Uuid
unfolding unique_from
unique_uuids ids = unique_from ids empty_map []

-- `fetched[row.ID] = row` for each row
unfoldable pub fetch_rows : List MessageRow → IdMap MessageRow → IdMap MessageRow
fetch_rows [] fetched = fetched
fetch_rows (r ∷ rs) fetched = fetch_rows rs (assign fetched r.id r)

-- `row, ok := fetched[id]`
abbrev pub fetched_row : IdMap MessageRow → Uuid → Result MessageRow
fetched_row fetched id = elim (fetched id) [
  | none ↦ err (with_id (sentinel message_not_found) id)
  | some r ↦ ok r
]

unfoldable pub check_fetched : IdMap MessageRow → List Uuid → Result (Unit {0})
check_fetched fetched [] = ok tt
check_fetched fetched (x ∷ xs) =
    Errors.◌>>=◌ (fetched_row fetched x) (λ r. check_fetched fetched xs)

-- The row that the loop inserts for a message.
abbrev pub snapshot_item : Uuid → ℕ → Uuid → Message → MessageColumns → Bytes → SnapshotItem
snapshot_item snapshot idx id msg cols hash = record {
  snapshot_id = snapshot;
  order_idx = idx;
  message_id = id;
  role = msg.role;
  kind = msg.kind;
  columns = cols;
  body_sha256 = hash;
  created_at = msg.created_at;
}

module _ (json : MapJson) (digest : Digest) where
  -- What the loop body computes before its INSERT.
  unfoldable pub copy_message : IdMap MessageRow → Uuid → ℕ → Uuid → Result SnapshotItem
  copy_message fetched snapshot idx id = Errors.◌>>=◌ (fetched_row fetched id) λ row.
      Errors.◌>>=◌ (to_domain json row) λ msg.
        Errors.◌>>=◌ (annotated "serialize body" (marshal_deterministic_json digest msg.body))
          λ bytes.
            Errors.◌>>=◌ (encode_message_body json msg.body)
              λ cols. ok (snapshot_item snapshot idx id msg cols (digest.sha256_hex bytes))

module _ (d : Driver) where
  -- SELECT ... FROM messages WHERE conversation_id = $1 AND id = ANY($2), in no order
  abbrev pub load_messages : Uuid → List Uuid → Db (List MessageRow)
  load_messages id unique w =
      wrapped "load messages"
        (query d (λ t. ok (d.scan_rows w.calls (select_messages id unique t)))) w

  -- `SELECT TRUE FROM conversations`
  abbrev pub check_conversation : Uuid → Db (Unit {0})
  check_conversation id w = or_missing conversation_not_found (query d (select_conversation id) w)

module _ (json : MapJson) (digest : Digest) (d : Driver) where
  unfoldable pub copy_each : IdMap MessageRow → Uuid → ℕ → List Uuid → Db (Unit {0})
  copy_each fetched snapshot idx [] = pure tt
  copy_each fetched snapshot idx (x ∷ xs) = do
    item ← lift (copy_message json digest fetched snapshot idx x)
    wrapped "insert snapshot item" (modify d (insert_snapshot_item d item))
    copy_each fetched snapshot (suc idx) xs

  -- The writes of the transaction, for the new id.
  abbrev pub insert_copies : IdMap MessageRow → Uuid → List Uuid → Time → Uuid → Db Snapshot
  insert_copies fetched id message_ids now snapshot = do
    created ← wrapped "insert snapshot" (modify d (insert_snapshot snapshot id now))
    copy_each fetched snapshot 0 message_ids
    pure (record { id = snapshot; conversation_id = id; created_at = created })

  -- The transaction of CreateSnapshot.
  unfoldable pub create_snapshot_tx : Uuid → List Uuid → Time → Db Snapshot
  unfolding select_conversation unique_uuids
  create_snapshot_tx id message_ids now = do
    check_conversation d id
    let unique = unique_uuids message_ids
    rows ← load_messages d id unique
    let fetched = fetch_rows rows empty_map
    lift (check_fetched fetched unique)
    snapshot ← new_uuid d
    insert_copies fetched id message_ids now snapshot

  unfoldable pub create_snapshot : Uuid → List Uuid → Db Snapshot
  unfolding run_tx
  create_snapshot id [] = raise (plain "snapshot requires at least one message")
  create_snapshot id (x ∷ xs) = run_tx d (create_snapshot_tx id (x ∷ xs))

module _ (d : Driver) where
  -- `loadSnapshot`
  unfoldable pub load_snapshot : Uuid → Db Snapshot
  unfolding select_snapshot
  load_snapshot id w = or_missing snapshot_not_found (query d (select_snapshot id) w)

-- `snapshotItemRow.toDomain`
unfoldable pub item_to_domain : MapJson → Uuid → SnapshotItem → Result Message
item_to_domain json conversation i = Errors.◌>>=◌ (decode_message_body json i.columns) λ body.
    ok (record {
      id = i.message_id;
      conversation_id = conversation;
      role = i.role;
      kind = i.kind;
      body = body;
      created_at = i.created_at;
    })

module _ (json : MapJson) (d : Driver) where
  unfoldable pub list_snapshot_messages : Uuid → ℤ → Option PageCursor → Db (Page Message)
  unfolding load_snapshot select_snapshot_page scan_page
  list_snapshot_messages id page_size cursor = do
    snapshot ← load_snapshot d id
    let limit = page_limit page_size
    rows ← query d (λ t. ok (select_snapshot_page id cursor limit t))
    lift (scan_page (item_to_domain json snapshot.conversation_id) (λ i. i.order_idx) limit rows)

module _ (d : Driver) where
  unfoldable pub list_snapshot_message_ids : Uuid → ℤ → Option PageCursor → Db (Page Uuid)
  unfolding load_snapshot select_snapshot_page scan_page
  list_snapshot_message_ids id page_size cursor = do
    load_snapshot d id
    let limit = page_limit page_size
    rows ← query d (λ t. ok (select_snapshot_page id cursor limit t))
    lift (scan_page (λ i. ok i.message_id) (λ i. i.order_idx) limit rows)
