-- ===== src/Store/Snapshot/Copies.antt =====
-- The loop of CreateSnapshot in internal/state/snapshot.go: which items it inserts.
use mathlib.Core.List.{append_assoc, append-nil}
use agent_state.Common.{ℕ, suc, ◌≡◌, refl, sym, ap, ◌∙◌, subst, List, [], ◌∷◌}
use agent_state.Errors.{Uuid, ok, bind-eq-ok, ok-injective, annotated, annotated-eq-ok}
use agent_state.Message.{Message, MessageBody}
use agent_state.Message.Columns.{
  MapJson, Bytes, MessageColumns, encode_message_body, decode_message_body,
}
use agent_state.Message.Digest.{Digest, marshal_deterministic_json}
use agent_state.Message.Row.{MessageRow, to_domain}
use agent_state.Database.{SnapshotItem, Tables, World, Driver}
use agent_state.Database.Among.{Among}
use agent_state.Database.Copied.{with_snapshot_items, insert_snapshot_item-eq-ok}
use agent_state.Database.Monad.{lift, wrapped, modify, tick}
use agent_state.Database.Outcome.{>>=-eq-ok, lift-eq-ok, wrapped-eq-ok, modify-eq-ok, pair_eq}
use agent_state.Database.Snapshots.{insert_snapshot_item}
use agent_state.Database.Statements.{stored_columns}
use agent_state.Store.Cut.{IdMap}
use agent_state.Store.Snapshot.Same.{SameBody}
use agent_state.Store.Snapshot.Bodies.{decoded-SameBody}
use agent_state.Store.Snapshot.Fetched.{Holds, fetched_row-eq-ok}
use agent_state.Store.Snapshot.{fetched_row, copy_message, copy_each}

-- The item that the loop leaves for the message `id`, a copy of a row of the list: it has the row's
-- role, kind, time and body, and the hash of the body.
pub record Copied (json : MapJson) (digest : Digest) (d : Driver) (rows : List MessageRow)
    (snapshot : Uuid) (idx : ℕ) (id : Uuid) (i : SnapshotItem) : Type 0 where
  pub row : MessageRow
  pub place : Among row rows
  pub named : row.id ≡ id
  pub of_snapshot : i.snapshot_id ≡ snapshot
  pub numbered : i.order_idx ≡ idx
  pub of_message : i.message_id ≡ id
  pub same_role : i.role ≡ row.role
  pub same_kind : i.kind ≡ row.kind
  pub same_time : i.created_at ≡ row.created_at
  pub same_body : SameBody json d row.columns i.columns
  pub body : MessageBody
  pub read : decode_message_body json row.columns ≡ ok body
  pub bytes : Bytes
  pub marshalled : marshal_deterministic_json digest body ≡ ok bytes
  pub hashed : i.body_sha256 ≡ digest.sha256_hex bytes

-- One item for each id, in order, from the index on.
pub data AllCopied (json : MapJson) (digest : Digest) (d : Driver) (rows : List MessageRow)
    (snapshot : Uuid) : ℕ → List Uuid → List SnapshotItem → Type 0 where
  none_left : (idx : ℕ) → AllCopied json digest d rows snapshot idx [] []
  one_more :
      {idx : ℕ} {id : Uuid} {i : SnapshotItem} {ids : List Uuid} {is : List SnapshotItem}
      → Copied json digest d rows snapshot idx id i
      → AllCopied json digest d rows snapshot (suc idx) ids is
      → AllCopied json digest d rows snapshot idx (id ∷ ids) (i ∷ is)

module _ (json : MapJson) (digest : Digest) (d : Driver) (fetched : IdMap MessageRow)
    (rows : List MessageRow) (holds : Holds fetched rows) (snapshot : Uuid) where
  -- The message of a row has the row's fields and the decoded body.
  to_domain-eq-ok :
      (row : MessageRow) {msg : Message}
      → to_domain json row ≡ ok msg
      → (decode_message_body json row.columns ≡ ok msg.body)
        × (msg.role ≡ row.role)
        × (msg.kind ≡ row.kind)
        × (msg.created_at ≡ row.created_at)
  unfolding to_domain
  to_domain-eq-ok row {msg} h =
      let (body, p, made) = bind-eq-ok (decode_message_body json row.columns) _ h in
      let same = ok-injective made in
      (
        p ∙ ap (λ (m : Message). ok m.body) same,
        sym (ap (λ (m : Message). m.role) same),
        sym (ap (λ (m : Message). m.kind) same),
        sym (ap (λ (m : Message). m.created_at) same),
      )

  -- A copy that is inserted.
  copy_message-Copied :
      (idx : ℕ) (id : Uuid) {sent : SnapshotItem} {cols : MessageColumns}
      → copy_message json digest fetched snapshot idx id ≡ ok sent
      → stored_columns d sent.columns ≡ ok cols
      → Copied json digest d rows snapshot idx id (record sent { columns = cols })
  unfolding copy_message
  copy_message-Copied idx id {sent} {cols} h kept =
      let (row, p₁, h₁) = bind-eq-ok (fetched_row fetched id) _ h in
      let (msg, p₂, h₂) = bind-eq-ok (to_domain json row) _ h₁ in
      let (bytes, p₃, h₃) =
        bind-eq-ok (annotated "serialize body" (marshal_deterministic_json digest msg.body)) _ h₂ in
      let (columns, p₄, h₄) = bind-eq-ok (encode_message_body json msg.body) _ h₃ in
      let made = ok-injective h₄ in
      let found = holds id row (fetched_row-eq-ok fetched id p₁) in
      let (body, role, kind, time) = to_domain-eq-ok row p₂ in
      let same = sym made in
      record {
        row = row;
        place = found.0;
        named = found.1;
        of_snapshot = ap (λ (s : SnapshotItem). s.snapshot_id) same;
        numbered = ap (λ (s : SnapshotItem). s.order_idx) same;
        of_message = ap (λ (s : SnapshotItem). s.message_id) same;
        same_role = ap (λ (s : SnapshotItem). s.role) same ∙ role;
        same_kind = ap (λ (s : SnapshotItem). s.kind) same ∙ kind;
        same_time = ap (λ (s : SnapshotItem). s.created_at) same ∙ time;
        same_body =
            decoded-SameBody json d row.columns body p₄
              (subst (λ (s : SnapshotItem). stored_columns d s.columns ≡ ok cols) same kept);
        body = msg.body;
        read = body;
        bytes = bytes;
        marshalled = annotated-eq-ok _ _ p₃;
        hashed = ap (λ (s : SnapshotItem). s.body_sha256) same;
      }

module _ (json : MapJson) (digest : Digest) (d : Driver) (fetched : IdMap MessageRow)
    (rows : List MessageRow) (holds : Holds fetched rows) (snapshot : Uuid) where
  -- What the loop over the ids made of the world `w`.
  abbrev pub CopiedEach : ℕ → List Uuid → World → World → Type 0
  CopiedEach idx ids w v =
      (items : List SnapshotItem) × AllCopied json digest d rows snapshot idx ids items
      × (v.tables ≡ with_snapshot_items w.tables items)
      × (v.sequence ≡ w.sequence)

  -- The first round and the others, together.
  rounds_together :
      (copy : SnapshotItem) (idx : ℕ) (x : Uuid) (xs : List Uuid) (w w₁ w₂ w' : World) (t : Tables)
      → w₁ ≡ w
      → t ≡ with_snapshot_items w₁.tables (copy ∷ [])
      → w₂ ≡ record (tick w₁) { tables = t }
      → Copied json digest d rows snapshot idx x copy
      → CopiedEach (suc idx) xs w₂ w'
      → CopiedEach idx (x ∷ xs) w w'
  rounds_together copy idx x xs w w₁ w₂ w' t same tables into copied
        (items, others, rest, sequence) =
      (
        copy ∷ items,
        one_more copied others,
        rest
            ∙ rw (into, tables, same)
                (rw (append_assoc w.tables.snapshot_items (copy ∷ []) items) refl),
        sequence ∙ rw (into, same) refl,
      )

  -- A loop that returns has inserted a copy for each id, and nothing else.
  pub copy_each-eq-ok :
      (ids : List Uuid) (idx : ℕ) (w : World) {w' : World}
      → copy_each json digest d fetched snapshot idx ids w ≡ (ok tt, w')
      → CopiedEach idx ids w w'
  unfolding copy_each
  copy_each-eq-ok [] idx w h =
      subst (CopiedEach idx [] w) (pair_eq h).1
        ([], none_left idx, rw (append-nil w.tables.snapshot_items) refl, refl)
  copy_each-eq-ok (x ∷ xs) idx w {w'} h =
      let (item, w₁, p₁, h₁) =
        >>=-eq-ok (lift (copy_message json digest fetched snapshot idx x)) _ w h in
      let insert = modify d (insert_snapshot_item d item) in
      let (u, w₂, p₂, h₂) = >>=-eq-ok (wrapped "insert snapshot item" insert) _ w₁ h₁ in
      let (made, same) = lift-eq-ok (copy_message json digest fetched snapshot idx x) w p₁ in
      let (t, changed, into) =
        modify-eq-ok d (insert_snapshot_item d item) w₁ (wrapped-eq-ok _ insert w₁ p₂) in
      let (cols, kept, tables) = insert_snapshot_item-eq-ok d item w₁.tables changed in
      rounds_together (record item { columns = cols }) idx x xs w w₁ w₂ w' t same tables into
        (copy_message-Copied json digest d fetched rows holds snapshot idx x made kept)
        (copy_each-eq-ok xs (suc idx) w₂ h₂)
