-- ===== src/Store/Snapshot/Pages.antt =====
-- A client that pages through ListSnapshotMessageIDs of internal/state/snapshot.go.
use agent_state.Common.{
  ℕ, suc, ◌<◌, ◌≡◌, refl, ap, ◌∙◌, Option, none, List, map, length, take, arith, ◌==◌,
}
use agent_state.Common.Int.{ℤ}
use agent_state.Errors.{Uuid, ok}
use agent_state.Page.{PageCursor, is_after}
use agent_state.Page.Client.{client, Serves, client-cover}
use agent_state.Page.Walk.{behind, page_of, scan-page_of}
use agent_state.Database.{Snapshot, SnapshotItem, Tables, World, Driver}
use agent_state.Database.Filtered.{filter_by-and, filter_by-IsAscending}
use agent_state.Database.Monad.{tick}
use agent_state.Database.Ordered.{IsAscending, order_by-eq_of_ascending}
use agent_state.Database.Query.{filter_by, order_by}
use agent_state.Database.Snapshots.{select_snapshot, select_snapshot_page}
use agent_state.Store.List.{page_limit}
use agent_state.Store.Snapshot.{list_snapshot_message_ids, load_snapshot}
use agent_state.Store.Walk.{IsQuiet, page_limit-pos}

-- The rows of snapshot_items of one snapshot.
abbrev pub copies_of : Uuid → Tables → List SnapshotItem
copies_of id t = filter_by (λ i. i.snapshot_id == id) t.snapshot_items

-- The ids of a snapshot's messages.
abbrev pub copied_ids : Uuid → Tables → List Uuid
copied_ids id t = map (λ i. i.message_id) (copies_of id t)

select_snapshot_page-eq :
    (id : Uuid) (c : Option PageCursor) (limit : ℕ) (t : Tables)
    → IsAscending (λ i. i.order_idx) (copies_of id t)
    → select_snapshot_page id c limit t
      ≡ take (suc limit) (behind (λ i. i.order_idx) c (copies_of id t))
unfolding select_snapshot_page
select_snapshot_page-eq id c limit t asc = ap (take (suc limit)) (
    ap (order_by (λ (i : SnapshotItem). i.order_idx)) (
      filter_by-and (λ (i : SnapshotItem). i.snapshot_id == id) (λ i. is_after c i.order_idx)
        t.snapshot_items)
    ∙ order_by-eq_of_ascending (λ (i : SnapshotItem). i.order_idx) _
        (filter_by-IsAscending (λ i. i.order_idx) (λ i. is_after c i.order_idx) (copies_of id t)
          asc))

module _ (d : Driver) (quiet : IsQuiet d) (id : Uuid) (page_size : ℤ) where
  list_ids_run :
      (cursor : Option PageCursor) (s : Snapshot) (w : World)
      → select_snapshot id w.tables ≡ ok s
      → IsAscending (λ i. i.order_idx) (copies_of id w.tables)
      → list_snapshot_message_ids d id page_size cursor w ≡ (
        ok (
            page_of
              (λ i. i.message_id)
              (λ i. i.order_idx)
              (page_limit page_size)
              (behind (λ i. i.order_idx) cursor (copies_of id w.tables))),
        tick (tick w),
      )
  unfolding list_snapshot_message_ids load_snapshot
  list_ids_run cursor s w found asc =
      let limit = page_limit page_size in
      let rows = behind (λ (i : SnapshotItem). i.order_idx) cursor (copies_of id w.tables) in
      ground (
        arith,
        quiet w.calls,
        quiet (suc w.calls),
        found,
        select_snapshot_page-eq id cursor limit w.tables asc,
        scan-page_of (λ (i : SnapshotItem). i.message_id) (λ (i : SnapshotItem). i.order_idx) limit
            rows,
      )

  pub list_ids-Serves :
      (s : Snapshot) (t : Tables)
      → select_snapshot id t ≡ ok s
      → IsAscending (λ i. i.order_idx) (copies_of id t)
      → Serves
          (list_snapshot_message_ids d id page_size)
          (λ i. i.message_id)
          (λ i. i.order_idx)
          (page_limit page_size)
          (copies_of id t)
          t
  list_ids-Serves s t found asc cursor w e =
      let run = list_ids_run cursor s w (rw e found) (rw e asc) in
      (tick (tick w), rw (run, e) refl, e)

  -- Reading page after page gives the ids of the snapshot's messages: where the snapshot exists, its
  -- items are numbered upwards and are fewer than the requests, and no call is refused.
  pub snapshot_ids-cover :
      (s : Snapshot) (w : World) (fuel : ℕ)
      → select_snapshot id w.tables ≡ ok s
      → IsAscending (λ i. i.order_idx) (copies_of id w.tables)
      → length (copies_of id w.tables) < fuel
      → (client (list_snapshot_message_ids d id page_size) fuel none w).0
        ≡ ok (copied_ids id w.tables)
  snapshot_ids-cover s w fuel found asc h =
      client-cover (list_snapshot_message_ids d id page_size) (λ i. i.message_id) (λ i. i.order_idx)
        (page_limit page_size) (copies_of id w.tables) w.tables
        (list_ids-Serves s w.tables found asc) fuel w refl (page_limit-pos page_size) asc h
