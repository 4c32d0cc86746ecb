-- ===== src/Store/Operations/Frozen.antt =====
-- A snapshot of internal/state/snapshot.go is left alone by every later operation.
use agent_state.Common.{
  ℕ, suc, ◌≡◌, refl, sym, ap, ◌∙◌, subst, true, false, ◌==◌, ==_iff, Bool-cases, inl, inr, List, [],
  ◌∷◌, arith,
}
use mathlib.Core.List.{append-nil}
use agent_state.Errors.{Uuid, Result, ok, ok-injective, bind-eq-ok, annotated}
use agent_state.Message.{Time}
use agent_state.Message.Columns.{MapJson, encode_message_body}
use agent_state.Message.Digest.{Digest, marshal_deterministic_json}
use agent_state.Message.Row.{MessageRow, to_domain}
use agent_state.Database.{Snapshot, SnapshotItem, Tables, World, Driver}
use agent_state.Database.Copied.{insert_snapshot-eq-ok, insert_snapshot_item-eq-ok}
use agent_state.Database.Ensured.{find_by-snoc_other}
use agent_state.Database.Keeps.{Keeps, Keeps-lift}
use agent_state.Database.Monad.{lift, new_uuid, modify, wrapped}
use agent_state.Database.Ordered.{filter_by-append}
use agent_state.Database.Snapshots.{
  snapshot_exists, insert_snapshot, insert_snapshot_item, select_snapshot, select_conversation,
}
use agent_state.Database.WellFormed.{any_by-append_left}
use agent_state.Store.Cut.{empty_map, IdMap}
use agent_state.Store.Snapshot.{
  fetch_rows, check_fetched, unique_uuids, copy_message, insert_copies, copy_each,
  create_snapshot_tx, check_conversation, load_messages, fetched_row,
}
use agent_state.Store.Snapshot.Pages.{copies_of}
use agent_state.Store.Operations.{Operation, run}
use agent_state.Store.Operations.Runs.{run-Kept}
use agent_state.Store.Operations.Untouched.{snapshots_kept}
use agent_state.Store.Operations.Steps.{KeptByWrites, bind, step, reading, lifted, refused}

-- The snapshot exists; a SELECT of it answers `r` and its items are `copies`.
abbrev pub Stands : Uuid → Result Snapshot → List SnapshotItem → Tables → ℕ → Type 0
Stands id r copies t s =
    (snapshot_exists id t ≡ true) × (select_snapshot id t ≡ r) × (copies_of id t ≡ copies)

module _ (id : Uuid) (r : Result Snapshot) (copies : List SnapshotItem) where
  frozen_writes : KeptByWrites (Stands id r copies)
  unfolding select_snapshot
  frozen_writes = snapshots_kept λ rows items.
      Stands id r copies
        (record {
          conversations = [];
          messages = [];
          items = [];
          snapshots = rows;
          snapshot_items = items;
        })
        0

  -- A row of another snapshot.
  insert_snapshot-Stands :
      (x conversation : Uuid) (now : Time) (t : Tables) (s : ℕ) (c : Time) (t' : Tables)
      → Stands id r copies t s
      → insert_snapshot x conversation now t ≡ ok (c, t')
      → Stands id r copies t' s
  unfolding select_snapshot
  insert_snapshot-Stands x conversation now t s c t' v h =
      let new : Snapshot = record { id = x; conversation_id = conversation; created_at = now } in
      let (fresh, known, at_now, same) = insert_snapshot-eq-ok x conversation now t h in
      let other : (x == id) ≡ false = elim (Bool-cases (x == id)) [
        | inl same_id ↦ ground (arith, ==_iff x id, v.0, fresh)
        | inr ne ↦ ne
      ] in
      subst (λ y. Stands id r copies y s) (sym same)
        (
          any_by-append_left (λ z. z.id == id) t.snapshots (new ∷ []) v.0,
          rw
              (
                find_by-snoc_other (λ (z : Snapshot). z.id == id) t.snapshots new other,
                select_snapshot,
              )
              v.1,
          v.2,
        )

  -- An item of another snapshot.
  insert_snapshot_item-Stands :
      (d : Driver) (item : SnapshotItem)
      → (item.snapshot_id == id) ≡ false
      → (t : Tables) (s : ℕ) (u : Unit {0}) (t' : Tables) → Stands id r copies t s
      → insert_snapshot_item d item t ≡ ok (u, t')
      → Stands id r copies t' s
  unfolding select_snapshot
  insert_snapshot_item-Stands d item other t s u t' v h =
      let (cols, kept, same) = insert_snapshot_item-eq-ok d item t h in
      subst (λ y. Stands id r copies y s) (sym same)
        (
          v.0,
          v.1,
          filter_by-append (λ (i : SnapshotItem). i.snapshot_id == id) t.snapshot_items
                (record item { columns = cols } ∷ [])
              ∙ rw other (append-nil (copies_of id t) ∙ v.2),
        )

  module _ (json : MapJson) (digest : Digest) (d : Driver) where
    copy_message-names :
        (fetched : IdMap MessageRow) (x : Uuid) (idx : ℕ) (i : Uuid) {item : SnapshotItem}
        → copy_message json digest fetched x idx i ≡ ok item
        → item.snapshot_id ≡ x
    unfolding copy_message
    copy_message-names fetched x idx i h =
        let (row, p₁, h₁) = bind-eq-ok (fetched_row fetched i) _ h in
        let (msg, p₂, h₂) = bind-eq-ok (to_domain json row) _ h₁ in
        let (bytes, p₃, h₃) =
          bind-eq-ok (annotated "serialize body" (marshal_deterministic_json digest msg.body)) _
            h₂ in
        let (columns, p₄, h₄) = bind-eq-ok (encode_message_body json msg.body) _ h₃ in
        ap (λ (s : SnapshotItem). s.snapshot_id) (sym (ok-injective h₄))

    copy_each-Keeps :
        (fetched : IdMap MessageRow) (x : Uuid)
        → (x == id) ≡ false
        → (ids : List Uuid) (idx : ℕ)
        → Keeps (Stands id r copies) (copy_each json digest d fetched x idx ids)
    unfolding copy_each
    copy_each-Keeps fetched x other [] idx = Keeps-lift (Stands id r copies) (ok tt)
    copy_each-Keeps fetched x other (i ∷ is) idx =
        lifted (Stands id r copies) (copy_message json digest fetched x idx i) _ λ item made.
          bind (Stands id r copies)
            (wrapped "insert snapshot item" (modify d (insert_snapshot_item d item))) _
            (step (Stands id r copies) d _ _ (
              insert_snapshot_item-Stands d item
                (rw (copy_message-names fetched x idx i made) other)))
            λ u. copy_each-Keeps fetched x other is (suc idx)

    insert_copies-Keeps :
        (fetched : IdMap MessageRow) (conversation : Uuid) (ids : List Uuid) (now : Time) (x : Uuid)
        → Keeps (Stands id r copies) (insert_copies json digest d fetched conversation ids now x)
    insert_copies-Keeps fetched conversation ids now x = elim (Bool-cases (x == id)) [
      | inl same ↦
          refused (Stands id r copies) d "insert snapshot" (insert_snapshot x conversation now) _
            λ t s c t' v h.
              let taken : snapshot_exists x t ≡ true =
                subst (λ y. snapshot_exists y t ≡ true) (sym ((==_iff x id).0 same)) v.0 in
              ground (arith, taken, (insert_snapshot-eq-ok x conversation now t h).0)
      | inr other ↦
          bind (Stands id r copies)
            (wrapped "insert snapshot" (modify d (insert_snapshot x conversation now))) _
            (step (Stands id r copies) d _ _ (insert_snapshot-Stands x conversation now))
            λ created.
              bind (Stands id r copies) (copy_each json digest d fetched x 0 ids) _
                (copy_each-Keeps fetched x other ids 0) λ u. Keeps-lift (Stands id r copies) _
    ]

    create_snapshot_tx-Keeps :
        (conversation : Uuid) (ids : List Uuid) (now : Time)
        → Keeps (Stands id r copies) (create_snapshot_tx json digest d conversation ids now)
    unfolding create_snapshot_tx select_conversation
    create_snapshot_tx-Keeps conversation ids now =
        let unique = unique_uuids ids in
        bind (Stands id r copies) (check_conversation d conversation) _
          (reading (Stands id r copies) d _ (λ w. ground arith))
          λ u.
            bind (Stands id r copies) (load_messages d conversation unique) _
              (reading (Stands id r copies) d _ (λ w. ground arith))
              λ rows.
                let fetched = fetch_rows rows empty_map in
                bind (Stands id r copies) (lift (check_fetched fetched unique)) _
                  (Keeps-lift (Stands id r copies) _)
                  λ v.
                    bind (Stands id r copies) (new_uuid d)
                      (insert_copies json digest d fetched conversation ids now)
                      (reading (Stands id r copies) d (new_uuid d) (λ w. (refl, refl)))
                      (insert_copies-Keeps fetched conversation ids now)

module _ (json : MapJson) (digest : Digest) (d : Driver) where
  -- A snapshot that exists is left as it is by any sequence of operations on any conversation, whether
  -- they return or fail: its row and its items, which are what the pages of it show.
  pub run-Stands :
      (id : Uuid) (ops : List Operation) (w : World)
      → snapshot_exists id w.tables ≡ true
      → (select_snapshot id (run json digest d ops w).tables ≡ select_snapshot id w.tables)
        × (copies_of id (run json digest d ops w).tables ≡ copies_of id w.tables)
  run-Stands id ops w known =
      let found = select_snapshot id w.tables in
      let copies = copies_of id w.tables in
      let kept =
        run-Kept (Stands id found copies) (frozen_writes id found copies) json digest d
          (create_snapshot_tx-Keeps id found copies json digest d) ops w (known, refl, refl) in
      (kept.1, kept.2)
