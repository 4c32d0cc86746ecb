-- ===== src/Store/Operations/Refined.antt =====
-- The snapshots of internal/state/snapshot.go against an abstract store: a map that is written once
-- for each id, from a snapshot's id to the ids of its messages.
use agent_state.Common.{
  ℕ, ◌≡◌, ◌≢◌, refl, sym, ap, subst, inl, inr, Bool, true, false, ◌==◌, ==_iff, ==_refl, Bool-cases,
  Option, none, some, List, [], ◌∷◌, ◌++◌, All, arith, if◌then◌else◌,
}
use mathlib.Core.List.{append-nil}
use agent_state.Errors.{Uuid}
use agent_state.Message.{Time}
use agent_state.Message.Columns.{MapJson}
use agent_state.Message.Digest.{Digest}
use agent_state.Database.{Snapshot, SnapshotItem, Tables, World, Driver}
use agent_state.Database.Among.{ScansRows}
use agent_state.Database.Ended.{run_tx-ended}
use agent_state.Database.Monad.{tick}
use agent_state.Database.Ordered.{filter_by-append, filter_by-none}
use agent_state.Database.Query.{any_by}
use agent_state.Database.Snapshots.{snapshot_exists}
use agent_state.Database.WellFormed.{IsWellFormed, All-map}
use agent_state.Store.Operations.{Operation, append, replace, delete, snapshot, exec, run}
use agent_state.Store.Operations.Schema.{run-IsWellFormed}
use agent_state.Database.Keeps.{Kept}
use agent_state.Store.Operations.Runs.{append-Keeps, replace-Keeps, delete-Keeps}
use agent_state.Store.Operations.Untouched.{OfSnapshots, snapshots_kept}
use agent_state.Store.Snapshot.{create_snapshot, create_snapshot_tx}
use agent_state.Store.Snapshot.Created.{Created, create_snapshot_tx-eq-ok}
use agent_state.Store.Snapshot.Fetched.{messages_of}
use agent_state.Store.Snapshot.Held.{any_by-snoc, item_ids, item_names, Created-copies_of}
use agent_state.Store.Snapshot.Pages.{copies_of, copied_ids}

-- The abstract store.
abbrev pub Snapshots : Type 0
Snapshots = Uuid → Option (List Uuid)

abbrev pub snapshots_of : Tables → Snapshots
snapshots_of t id = if snapshot_exists id t then some (copied_ids id t) else none

-- What an operation may do to it: nothing, or, for a snapshot, write the ids that were asked for at
-- an id that had none.
pub data Writes : Operation → Snapshots → Snapshots → Type 0 where
  nothing : {op : Operation} {v v' : Snapshots} → ((id : Uuid) → v' id ≡ v id) → Writes op v v'
  taken :
      {conversation : Uuid} {ids : List Uuid} {v v' : Snapshots} (x : Uuid)
      → v x ≡ none
      → v' x ≡ some ids
      → ((other : Uuid) → other ≢ x → v' other ≡ v other)
      → Writes (snapshot conversation ids) v v'

-- A run of the abstract store.
abbrev pub WritesEach : List Operation → Snapshots → Snapshots → Type 0
WritesEach [] v v' = (id : Uuid) → v' id ≡ v id
WritesEach (op ∷ ops) v v' = (u : Snapshots) × Writes op v u × WritesEach ops u v'

any_by-snoc_other :
    {A : Type 0} (p : A → Bool) (xs : List A) (x : A)
    → p x ≡ false
    → any_by p (xs ++ x ∷ []) ≡ any_by p xs
any_by-snoc_other p [] x h = ground arith
any_by-snoc_other p (y ∷ ys) x h = ground (arith, any_by-snoc_other p ys x h)

module _ (json : MapJson) (digest : Digest) (d : Driver) where
  -- The other snapshots are as before.
  Created-others :
      (id : Uuid) (ids : List Uuid) (now : Time) (t : Tables) {s : Snapshot} {t' : Tables}
      → Created json digest d id ids now t s t'
      → (other : Uuid) → other ≢ s.id
      → snapshots_of t' other ≡ snapshots_of t other
  Created-others id ids now t {s} c other differs =
      let away : (s.id == other) ≡ false = elim (Bool-cases (s.id == other)) [
        | inl same ↦ absurd (differs (sym ((==_iff s.id other).0 same)))
        | inr ne ↦ ne
      ] in
      let items_away : All (λ (i : SnapshotItem). (i.snapshot_id == other) ≡ false) c.items =
        All-map _ _ c.items
          (λ i h. subst (λ y. (y == other) ≡ false) (sym ((==_iff i.snapshot_id s.id).0 h)) away)
          (item_names json digest d (messages_of id t) s.id c.copied) in
      rw
        (
          c.tables,
          any_by-snoc_other (λ (z : Snapshot). z.id == other) t.snapshots s away,
          filter_by-append (λ (i : SnapshotItem). i.snapshot_id == other) t.snapshot_items c.items,
          filter_by-none (λ (i : SnapshotItem). i.snapshot_id == other) c.items items_away,
          append-nil (copies_of other t),
        )
        refl

  Created-Writes :
      (id : Uuid) (ids : List Uuid) (now : Time) (t : Tables) (n : ℕ) {s : Snapshot} {t' : Tables}
      → IsWellFormed t n
      → Created json digest d id ids now t s t'
      → Writes (snapshot id ids) (snapshots_of t) (snapshots_of t')
  Created-Writes id ids now t n {s} {t'} v c =
      let here : snapshot_exists s.id t' ≡ true =
        rw c.tables (any_by-snoc (λ (z : Snapshot). z.id == s.id) t.snapshots s (==_refl s.id)) in
      let held : copied_ids s.id t' ≡ ids =
        rw (Created-copies_of json digest d id ids now t n v c)
          (item_ids json digest d (messages_of id t) s.id c.copied) in
      taken s.id (rw c.fresh refl) (rw here (ap some held)) (Created-others id ids now t c)

  snapshot-Writes :
      (id : Uuid) (ids : List Uuid) (w : World)
      → ScansRows d
      → IsWellFormed w.tables w.sequence
      → Writes
          (snapshot id ids)
          (snapshots_of w.tables)
          (snapshots_of (create_snapshot json digest d id ids w).1.tables)
  unfolding create_snapshot
  snapshot-Writes id [] w scans v = nothing (λ other. refl)
  snapshot-Writes id (x ∷ xs) w scans v =
      let now = d.now w.calls in
      elim (run_tx-ended d (create_snapshot_tx json digest d id (x ∷ xs)) w) [
        | inl same ↦ nothing (λ other. ap (λ t. snapshots_of t other) same)
        | inr (s, body, end) ↦
            subst (λ t. Writes (snapshot id (x ∷ xs)) (snapshots_of w.tables) (snapshots_of t))
              (sym end)
              (Created-Writes id (x ∷ xs) now w.tables w.sequence v
                (create_snapshot_tx-eq-ok json digest d scans id (x ∷ xs) now (tick w) body))
      ]

  -- The rows of the snapshots and of their items.
  abbrev Untouched : Tables → List Snapshot → List SnapshotItem → Type 0
  Untouched t rows items = (rows ≡ t.snapshots) × (items ≡ t.snapshot_items)

  Untouched-Writes :
      (op : Operation) (w w' : World)
      → Kept (OfSnapshots (Untouched w.tables)) w w'
      → Writes op (snapshots_of w.tables) (snapshots_of w'.tables)
  Untouched-Writes op w w' kept = nothing (λ id. rw (kept.0.0, kept.0.1) refl)

  exec-Writes :
      (op : Operation) (w : World)
      → ScansRows d
      → IsWellFormed w.tables w.sequence
      → Writes op (snapshots_of w.tables) (snapshots_of (exec json digest d op w).tables)
  exec-Writes (append id inputs) w scans v =
      let q = Untouched w.tables in
      Untouched-Writes (append id inputs) w (exec json digest d (append id inputs) w)
        ((append-Keeps (OfSnapshots q) (snapshots_kept q) json d id inputs).at w (refl, refl))
  exec-Writes (replace id spec) w scans v =
      let q = Untouched w.tables in
      Untouched-Writes (replace id spec) w (exec json digest d (replace id spec) w)
        ((replace-Keeps (OfSnapshots q) (snapshots_kept q) json d id spec).at w (refl, refl))
  exec-Writes (delete id spec) w scans v =
      let q = Untouched w.tables in
      Untouched-Writes (delete id spec) w (exec json digest d (delete id spec) w)
        ((delete-Keeps (OfSnapshots q) (snapshots_kept q) json d id spec).at w (refl, refl))
  exec-Writes (snapshot id ids) w scans v = snapshot-Writes id ids w scans v

  -- Any sequence of operations, each returning or failing, is a run of the abstract store, in which a
  -- snapshot maps to the ids of its messages: at each step a snapshot may appear under an id that had
  -- none, with the ids that were asked for, and nothing else changes. The tables are well formed at
  -- first and a query returns rows of its result in some order.
  pub run-Refines :
      (ops : List Operation) (w : World)
      → ScansRows d
      → IsWellFormed w.tables w.sequence
      → WritesEach ops (snapshots_of w.tables) (snapshots_of (run json digest d ops w).tables)
  run-Refines [] w scans v = λ id. refl
  run-Refines (op ∷ ops) w scans v =
      let next = exec json digest d op w in
      (
        snapshots_of next.tables,
        exec-Writes op w scans v,
        run-Refines ops next scans (run-IsWellFormed json digest d (op ∷ []) w v),
      )
