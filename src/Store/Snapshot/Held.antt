-- ===== src/Store/Snapshot/Held.antt =====
-- What a new snapshot of internal/state/snapshot.go answers when it is read.
use agent_state.Common.{
  ℕ, ◌≤◌, ◌≡◌, refl, sym, ap, ◌∙◌, subst, Bool, true, false, List, [], ◌∷◌, ◌++◌, map, length,
  length-map, All, arith, ◌==◌, ==_iff, ==_refl, inl, inr, Bool-cases,
}
use agent_state.Errors.{Uuid, ok}
use agent_state.Message.{Time}
use agent_state.Message.Columns.{MapJson}
use agent_state.Message.Digest.{Digest}
use agent_state.Message.Row.{MessageRow}
use agent_state.Database.{Snapshot, SnapshotItem, Tables, World, Driver}
use agent_state.Database.Among.{ScansRows}
use agent_state.Database.Ensured.{find_by-snoc}
use agent_state.Database.Ordered.{IsAscending, filter_by-append, filter_by-All, filter_by-none}
use agent_state.Database.Query.{any_by}
use agent_state.Database.Snapshots.{select_snapshot, snapshot_exists}
use agent_state.Database.WellFormed.{IsWellFormed, All-map}
use agent_state.Store.Operations.{Operation, run}
use agent_state.Store.Operations.Frozen.{run-Stands}
use agent_state.Store.Snapshot.{create_snapshot}
use agent_state.Store.Snapshot.Copies.{AllCopied, none_left, one_more}
use agent_state.Store.Snapshot.Created.{Created, create_snapshot-Created}
use agent_state.Store.Snapshot.Pages.{copies_of, copied_ids}

module _ (json : MapJson) (digest : Digest) (d : Driver) (rows : List MessageRow) (x : Uuid) where
  pub item_ids :
      {idx : ℕ} {ids : List Uuid} {items : List SnapshotItem}
      → AllCopied json digest d rows x idx ids items
      → map (λ i. i.message_id) items ≡ ids
  item_ids (none_left idx) = refl
  item_ids (one_more {id = id} {ids = ids} c cs) = rw (item_ids cs) (ap (λ i. i ∷ ids) c.of_message)

  pub item_names :
      {idx : ℕ} {ids : List Uuid} {items : List SnapshotItem}
      → AllCopied json digest d rows x idx ids items
      → All (λ i. (i.snapshot_id == x) ≡ true) items
  item_names (none_left idx) = tt
  item_names (one_more c cs) = (rw c.of_snapshot (==_refl x), item_names cs)

  item_numbers :
      {idx : ℕ} {ids : List Uuid} {items : List SnapshotItem}
      → AllCopied json digest d rows x idx ids items
      → All (λ i. idx ≤ i.order_idx) items
  item_numbers (none_left idx) = tt
  item_numbers (one_more c cs) =
      let here = c.numbered in (omega arith, All-map _ _ _ (λ i h. omega arith) (item_numbers cs))

  items-IsAscending :
      {idx : ℕ} {ids : List Uuid} {items : List SnapshotItem}
      → AllCopied json digest d rows x idx ids items
      → IsAscending (λ i. i.order_idx) items
  items-IsAscending (none_left idx) = tt
  items-IsAscending (one_more c cs) =
      let here = c.numbered in
      (All-map _ _ _ (λ i h. omega arith) (item_numbers cs), items-IsAscending cs)

pub any_by-snoc :
    {A : Type 0} (p : A → Bool) (xs : List A) (x : A) → p x ≡ true → any_by p (xs ++ x ∷ []) ≡ true
any_by-snoc p [] x h = ground arith
any_by-snoc p (y ∷ ys) x h = ground (arith, any_by-snoc p ys x)

module _ (json : MapJson) (digest : Digest) (d : Driver) where
  -- No item named the snapshot before.
  unnamed :
      (t : Tables) (x : Uuid) (items : List SnapshotItem)
      → snapshot_exists x t ≡ false
      → All (λ i. snapshot_exists i.snapshot_id t ≡ true) items
      → All (λ i. (i.snapshot_id == x) ≡ false) items
  unnamed t x items fresh known =
      All-map _ _ items
        (λ i h. elim (Bool-cases (i.snapshot_id == x)) [
          | inl same ↦
              let taken =
                subst (λ y. snapshot_exists y t ≡ true) ((==_iff i.snapshot_id x).0 same) h in
              ground (arith, taken, fresh)
          | inr other ↦ other
        ])
        known

  pub Created-copies_of :
      (id : Uuid) (ids : List Uuid) (now : Time) (t : Tables) (n : ℕ) {s : Snapshot} {t' : Tables}
      → IsWellFormed t n
      → (c : Created json digest d id ids now t s t') → copies_of s.id t' ≡ c.items
  Created-copies_of id ids now t n {s} v c = rw c.tables (
      filter_by-append (λ (i : SnapshotItem). i.snapshot_id == s.id) t.snapshot_items c.items
      ∙ rw
          (
            filter_by-none (λ (i : SnapshotItem). i.snapshot_id == s.id) t.snapshot_items
                (unnamed t s.id t.snapshot_items c.fresh v.copies),
            filter_by-All (λ (i : SnapshotItem). i.snapshot_id == s.id) c.items
                (item_names json digest d _ s.id c.copied),
          )
          refl)

  Created-select_snapshot :
      (id : Uuid) (ids : List Uuid) (now : Time) (t : Tables) {s : Snapshot} {t' : Tables}
      → Created json digest d id ids now t s t'
      → select_snapshot s.id t' ≡ ok s
  unfolding select_snapshot
  Created-select_snapshot id ids now t {s} c =
      rw
        (
          c.tables,
          find_by-snoc (λ (z : Snapshot). z.id == s.id) t.snapshots s c.fresh (==_refl s.id),
          select_snapshot,
        )
        refl

  -- What a snapshot that was created answers at once: itself, and the ids in the order that was
  -- asked for, its items numbered upwards.
  pub create_snapshot-holds :
      (id : Uuid) (ids : List Uuid) (w : World) {s : Snapshot} {w' : World}
      → ScansRows d
      → IsWellFormed w.tables w.sequence
      → create_snapshot json digest d id ids w ≡ (ok s, w')
      → (select_snapshot s.id w'.tables ≡ ok s)
        × (snapshot_exists s.id w'.tables ≡ true)
        × (copied_ids s.id w'.tables ≡ ids)
        × IsAscending (λ i. i.order_idx) (copies_of s.id w'.tables)
  create_snapshot-holds id ids w {s} {w'} scans v h =
      let now = d.now w.calls in
      let c = create_snapshot-Created json digest d id ids w scans h in
      let same = Created-copies_of id ids now w.tables w.sequence v c in
      (
        Created-select_snapshot id ids now w.tables c,
        rw c.tables
            (any_by-snoc (λ (z : Snapshot). z.id == s.id) w.tables.snapshots s (==_refl s.id)),
        rw same (item_ids json digest d _ s.id c.copied),
        rw same (items-IsAscending json digest d _ s.id c.copied),
      )

-- What a snapshot answers after any operations that followed its creation.
pub snapshot_after :
    (json : MapJson) (digest : Digest) (d later : Driver) (id : Uuid) (ids : List Uuid)
    (ops : List Operation) (w : World) {s : Snapshot} {w' : World}
    → ScansRows d
    → IsWellFormed w.tables w.sequence
    → create_snapshot json digest d id ids w ≡ (ok s, w')
    → (select_snapshot s.id (run json digest later ops w').tables ≡ ok s)
      × (copied_ids s.id (run json digest later ops w').tables ≡ ids)
      × IsAscending (λ i. i.order_idx) (copies_of s.id (run json digest later ops w').tables)
      × (length (copies_of s.id (run json digest later ops w').tables) ≡ length ids)
snapshot_after json digest d later id ids ops w {s} {w'} scans v h =
    let (found, known, held, asc) = create_snapshot-holds json digest d id ids w scans v h in
    let (row, items) = run-Stands json digest later s.id ops w' known in
    let copies = copies_of s.id (run json digest later ops w').tables in
    let same : map (λ i. i.message_id) copies ≡ ids = ap (map (λ i. i.message_id)) items ∙ held in
    (
      row ∙ found,
      same,
      rw items asc,
      sym (length-map (λ (i : SnapshotItem). i.message_id) copies) ∙ ap length same,
    )
