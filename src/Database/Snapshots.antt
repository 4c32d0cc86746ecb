-- ===== src/Database/Snapshots.antt =====
-- The SQL statements of internal/state/snapshot.go on the tables of migrations/0001_init.sql.
use agent_state.Common.{
  ℕ, suc, ◌^◌, Bool, Option, none, some, List, [], ◌∷◌, ◌++◌, take, ltb, ◌&&◌, ◌==◌, not,
  if◌then◌else◌,
}
use agent_state.Errors.{Uuid, Result, ok, err, no_rows, external}
use agent_state.Message.{Time}
use agent_state.Page.{PageCursor, is_after}
use agent_state.Database.{Snapshot, SnapshotItem, Tables, Driver}
use agent_state.Database.Query.{filter_by, find_by, any_by, order_by}
use agent_state.Database.Statements.{conversation_exists, stored_columns}

-- INTEGER
abbrev pub integer_limit : ℕ
integer_limit = 2 ^ 31

abbrev pub snapshot_exists : Uuid → Tables → Bool
snapshot_exists id t = any_by (λ s. s.id == id) t.snapshots

-- An item with the key of this one.
abbrev pub item_exists : SnapshotItem → Tables → Bool
item_exists item t =
    any_by (λ i. i.snapshot_id == item.snapshot_id && i.order_idx == item.order_idx)
      t.snapshot_items

-- SELECT TRUE FROM conversations WHERE id = $1
unfoldable pub select_conversation : Uuid → Tables → Result (Unit {0})
select_conversation id t = if conversation_exists id t then ok tt else err no_rows

-- INSERT INTO snapshots (id, conversation_id) VALUES ($1, $2) RETURNING created_at
unfoldable pub insert_snapshot : Uuid → Uuid → Time → Tables → Result (Time × Tables)
insert_snapshot id conversation now t =
    if snapshot_exists id t
    then err (external "duplicate key: snapshots_pkey")
    else if not (conversation_exists conversation t)
    then err (external "foreign key: snapshots_conversation_id_fkey")
    else ok (
      now,
      record t {
        snapshots =
            t.snapshots
            ++ record { id = id; conversation_id = conversation; created_at = now } ∷ [];
      },
    )

-- INSERT INTO snapshot_items
unfoldable pub insert_snapshot_item : Driver → SnapshotItem → Tables → Result (Unit {0} × Tables)
insert_snapshot_item d item t =
    if not (ltb item.order_idx integer_limit)
    then err (external "integer out of range")
    else if not (snapshot_exists item.snapshot_id t)
    then err (external "foreign key: snapshot_items_snapshot_id_fkey")
    else if item_exists item t
    then err (external "duplicate key: snapshot_items_pkey")
    else elim (stored_columns d item.columns) [
      | ok cols ↦ ok (
        tt,
        record t { snapshot_items = t.snapshot_items ++ record item { columns = cols } ∷ [] },
      )
      | err e ↦ err e
    ]

-- SELECT conversation_id, created_at FROM snapshots WHERE id = $1
unfoldable pub select_snapshot : Uuid → Tables → Result Snapshot
select_snapshot id t = elim (find_by (λ s. s.id == id) t.snapshots) [
  | none ↦ err no_rows
  | some s ↦ ok (record { id = id; conversation_id = s.conversation_id; created_at = s.created_at })
]

-- SELECT ... FROM snapshot_items WHERE snapshot_id = $1 AND order_idx > $2
-- ORDER BY order_idx ASC LIMIT limit + 1
unfoldable pub select_snapshot_page : Uuid → Option PageCursor → ℕ → Tables → List SnapshotItem
unfolding order_by
select_snapshot_page id cursor limit t = take (suc limit) (
    order_by (λ i. i.order_idx)
      (filter_by (λ i. i.snapshot_id == id && is_after cursor i.order_idx) t.snapshot_items))
