-- ===== src/Store/Snapshot/Created.antt =====
-- What CreateSnapshot of internal/state/snapshot.go does.
use agent_state.Common.{◌≡◌, refl, sym, ap, ◌∙◌, subst, true, false, List, [], ◌∷◌, ◌++◌, arith}
use agent_state.Errors.{Uuid, ok, ok-injective}
use agent_state.Message.{Time}
use agent_state.Message.Columns.{MapJson}
use agent_state.Message.Digest.{Digest}
use agent_state.Message.Row.{MessageRow}
use agent_state.Database.{Snapshot, SnapshotItem, Tables, World, Driver}
use agent_state.Database.Among.{ScansRows}
use agent_state.Database.Copied.{insert_snapshot-eq-ok}
use agent_state.Database.Monad.{lift, wrapped, modify, tick}
use agent_state.Database.Outcome.{
  >>=-eq-ok, lift-eq-ok, run_tx-eq-ok, wrapped-eq-ok, modify-eq-ok, pair_eq,
}
use agent_state.Database.Snapshots.{snapshot_exists, insert_snapshot, select_conversation}
use agent_state.Database.Statements.{conversation_exists}
use agent_state.Store.Cut.{IdMap, empty_map}
use agent_state.Store.Snapshot.{
  fetch_rows, check_fetched, check_conversation, load_messages, copy_each, unique_uuids,
  create_snapshot, create_snapshot_tx,
}
use agent_state.Store.Snapshot.Copies.{AllCopied, CopiedEach, copy_each-eq-ok}
use agent_state.Store.Snapshot.Fetched.{Holds, messages_of, load_messages-Holds}

-- The snapshot `s` of the messages `ids` is added, with one item for each, in order; the other
-- tables are as before.
pub record Created (json : MapJson) (digest : Digest) (d : Driver) (id : Uuid) (ids : List Uuid)
    (now : Time) (t : Tables) (s : Snapshot) (t' : Tables) : Type 0 where
  pub fresh : snapshot_exists s.id t ≡ false
  pub known : conversation_exists id t ≡ true
  pub made : s ≡ record { id = s.id; conversation_id = id; created_at = now }
  pub items : List SnapshotItem
  pub copied : AllCopied json digest d (messages_of id t) s.id 0 ids items
  pub tables :
      t'
      ≡ record t { snapshots = t.snapshots ++ s ∷ []; snapshot_items = t.snapshot_items ++ items }

check_conversation-eq-ok :
    (d : Driver) (id : Uuid) (w : World) {w' : World}
    → check_conversation d id w ≡ (ok tt, w')
    → w'.tables ≡ w.tables
unfolding select_conversation
check_conversation-eq-ok d id w h = ground arith

module _ (json : MapJson) (digest : Digest) (d : Driver) (scans : ScansRows d) (id : Uuid)
    (ids : List Uuid) (now : Time) where
  -- The writes of the transaction, one after the other, on the tables that were read.
  parts-Created :
      (x : Uuid) (created : Time) (fetched : IdMap MessageRow) (w w₁ w₂ w₃ w' : World) (t : Tables)
      {s : Snapshot}
      → w₁.tables ≡ w.tables
      → (snapshot_exists x w₁.tables ≡ false)
        × (conversation_exists id w₁.tables ≡ true)
        × (created ≡ now)
        × (t ≡ record w₁.tables {
          snapshots =
              w₁.tables.snapshots ++ record { id = x; conversation_id = id; created_at = now } ∷ [];
        })
      → w₂.tables ≡ t
      → (holds : Holds fetched (messages_of id w.tables))
      → CopiedEach json digest d fetched (messages_of id w.tables) holds x 0 ids w₂ w₃
      → record { id = x; conversation_id = id; created_at = created } ≡ s
      → w' ≡ w₃
      → Created json digest d id ids now w.tables s w'.tables
  parts-Created x created fetched w w₁ w₂ w₃ w' t {s} e₁ (fresh, known, at_now, into) e₂ holds
        (items, copied, tables, kept) made e₃ =
      let new : Snapshot = record { id = x; conversation_id = id; created_at = now } in
      let same : new ≡ s = rw (← at_now) made in
      subst (λ (y : Snapshot). Created json digest d id ids now w.tables y w'.tables) same
        (record {
          fresh = subst (λ t. snapshot_exists x t ≡ false) e₁ fresh;
          known = subst (λ t. conversation_exists id t ≡ true) e₁ known;
          made = refl;
          items = items;
          copied = copied;
          tables = rw (e₃, tables, e₂, into, e₁) refl;
        })

  pub create_snapshot_tx-eq-ok :
      (w : World) {s : Snapshot} {w' : World}
      → create_snapshot_tx json digest d id ids now w ≡ (ok s, w')
      → Created json digest d id ids now w.tables s w'.tables
  unfolding create_snapshot_tx
  create_snapshot_tx-eq-ok w {s} {w'} h =
      let unique = unique_uuids ids in
      let (u, w₁, p₁, h₁) = >>=-eq-ok (check_conversation d id) _ w h in
      let (rows, w₂, p₂, h₂) = >>=-eq-ok (load_messages d id unique) _ w₁ h₁ in
      let fetched = fetch_rows rows empty_map in
      let (v, w₃, p₃, h₃) = >>=-eq-ok (lift (check_fetched fetched unique)) _ w₂ h₂ in
      let x = d.new_uuid w₃.calls in
      let insert = modify d (insert_snapshot x id now) in
      let (created, w₅, p₅, h₅) = >>=-eq-ok (wrapped "insert snapshot" insert) _ (tick w₃) h₃ in
      let (z, w₆, p₆, h₆) = >>=-eq-ok (copy_each json digest d fetched x 0 ids) _ w₅ h₅ in
      let read = check_conversation-eq-ok d id w p₁ in
      let (holds, same₂) = load_messages-Holds d id unique w₁ scans p₂ in
      let same₃ = (lift-eq-ok (check_fetched fetched unique) w₂ p₃).1 in
      let (t, changed, into) =
        modify-eq-ok d (insert_snapshot x id now) (tick w₃) (wrapped-eq-ok _ insert (tick w₃) p₅) in
      let kept : w₃.tables ≡ w.tables = ap (λ (y : World). y.tables) (same₃ ∙ same₂) ∙ read in
      let holds_here : Holds fetched (messages_of id w.tables) =
        subst (λ (y : Tables). Holds fetched (messages_of id y)) read holds in
      let done = pair_eq h₆ in
      parts-Created x created fetched w w₃ w₅ w₆ w' t kept
        (insert_snapshot-eq-ok x id now w₃.tables changed) (ap (λ (y : World). y.tables) into)
        holds_here
        (copy_each-eq-ok json digest d fetched (messages_of id w.tables) holds_here x ids 0 w₅ p₆)
        (ok-injective done.0) (sym done.1)

-- A snapshot that is created, where a query returns rows of its result in some order, is new and of
-- a conversation that exists; it has one item for each id that was asked for, in order and numbered
-- from 0, with the role, kind, time and body of a message of the conversation with that id and the
-- hash of that body; the other tables are as before.
pub create_snapshot-Created :
    (json : MapJson) (digest : Digest) (d : Driver) (id : Uuid) (ids : List Uuid) (w : World)
    {s : Snapshot} {w' : World}
    → ScansRows d
    → create_snapshot json digest d id ids w ≡ (ok s, w')
    → Created json digest d id ids (d.now w.calls) w.tables s w'.tables
unfolding create_snapshot
create_snapshot-Created json digest d id [] w scans h = ground arith
create_snapshot-Created json digest d id (x ∷ xs) w {s} scans h =
    let (w₁, body, end) = run_tx-eq-ok d (create_snapshot_tx json digest d id (x ∷ xs)) w h in
    subst (λ (v : World). Created json digest d id (x ∷ xs) (d.now w.calls) w.tables s v.tables)
      (sym end)
      (create_snapshot_tx-eq-ok json digest d scans id (x ∷ xs) (d.now w.calls) (tick w) body)
