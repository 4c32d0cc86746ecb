-- ===== src/Database/Copied.antt =====
-- What the INSERTs of a snapshot and of its items that return have done.
use agent_state.Common.{
  ◌≡◌, refl, true, false, not, List, [], ◌∷◌, ◌++◌, arith, Bool-cases, inl, inr, ltb,
}
use agent_state.Errors.{Uuid, Result, ok, err}
use agent_state.Message.{Time}
use agent_state.Message.Columns.{MessageColumns}
use agent_state.Database.{SnapshotItem, Tables, Driver}
use agent_state.Database.Snapshots.{
  insert_snapshot, insert_snapshot_item, snapshot_exists, item_exists, integer_limit,
}
use agent_state.Database.Statements.{stored_columns, conversation_exists}

abbrev pub with_snapshot_items : Tables → List SnapshotItem → Tables
with_snapshot_items t is = record t { snapshot_items = t.snapshot_items ++ is }

-- The end of an INSERT, on the columns that the database keeps.
inserted-eq-ok :
    (item : SnapshotItem) (t : Tables) (r : Result MessageColumns) {t' : Tables}
    → ◌≡◌ {A = Result (Unit {0} × Tables)}
        (elim r [
          | ok cols ↦ ok (tt, with_snapshot_items t (record item { columns = cols } ∷ []))
          | err e ↦ err e
        ])
        (ok (tt, t'))
    → (cols : MessageColumns) × (r ≡ ok cols)
      × (t' ≡ with_snapshot_items t (record item { columns = cols } ∷ []))
inserted-eq-ok item t (ok cols) h = (cols, refl, ground arith)
inserted-eq-ok item t (err e) h = ground arith

pub insert_snapshot_item-eq-ok :
    (d : Driver) (item : SnapshotItem) (t : Tables) {t' : Tables}
    → insert_snapshot_item d item t ≡ ok (tt, t')
    → (cols : MessageColumns) × (stored_columns d item.columns ≡ ok cols)
      × (t' ≡ with_snapshot_items t (record item { columns = cols } ∷ []))
unfolding insert_snapshot_item
insert_snapshot_item-eq-ok d item t {t'} h =
    elim (Bool-cases (not (ltb item.order_idx integer_limit))) [
      | inl large ↦ ground arith
      | inr fits ↦ elim (Bool-cases (not (snapshot_exists item.snapshot_id t))) [
        | inl unknown ↦ ground arith
        | inr known ↦ elim (Bool-cases (item_exists item t)) [
          | inl taken ↦ ground arith
          | inr fresh ↦
              inserted-eq-ok item t (stored_columns d item.columns) (rw (fits, known, fresh) at h)
        ]
      ]
    ]

pub insert_snapshot-eq-ok :
    (x id : Uuid) (now : Time) (t : Tables) {created : Time} {t' : Tables}
    → insert_snapshot x id now t ≡ ok (created, t')
    → (snapshot_exists x t ≡ false)
      × (conversation_exists id t ≡ true)
      × (created ≡ now)
      × (t' ≡ record t {
        snapshots = t.snapshots ++ record { id = x; conversation_id = id; created_at = now } ∷ [];
      })
unfolding insert_snapshot
insert_snapshot-eq-ok x id now t h = elim (Bool-cases (snapshot_exists x t)) [
  | inl taken ↦ ground arith
  | inr fresh ↦ elim (Bool-cases (conversation_exists id t)) [
    | inl known ↦ (fresh, known, ground arith, ground arith)
    | inr unknown ↦ ground arith
  ]
]

pub insert_snapshot_item-known :
    (d : Driver) (item : SnapshotItem) (t : Tables) {t' : Tables}
    → insert_snapshot_item d item t ≡ ok (tt, t')
    → snapshot_exists item.snapshot_id t ≡ true
unfolding insert_snapshot_item
insert_snapshot_item-known d item t h = elim (Bool-cases (not (ltb item.order_idx integer_limit))) [
  | inl large ↦ ground arith
  | inr fits ↦ elim (Bool-cases (snapshot_exists item.snapshot_id t)) [
    | inl known ↦ known
    | inr unknown ↦ ground arith
  ]
]
