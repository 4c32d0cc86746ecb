-- ===== src/Database/Schema.antt =====
-- Each statement of internal/state keeps the tables well formed.
use agent_state.Common.{
  ℕ, ◌+◌, ◌≡◌, refl, sym, subst, Bool, true, false, not, ◌&&◌, ◌==◌, ltb, Bool-cases, inl, inr,
  List, [], ◌∷◌, ◌++◌, All, arith,
}
use agent_state.Errors.{Uuid, Result, ok, err}
use agent_state.Message.{Time}
use agent_state.Message.Row.{MessageRow}
use agent_state.Database.{Item, Snapshot, SnapshotItem, Tables, World, Driver}
use agent_state.Database.Copied.{
  insert_snapshot-eq-ok, insert_snapshot_item-eq-ok, insert_snapshot_item-known,
}
use agent_state.Database.Counts.{update_counts-Updated}
use agent_state.Database.Ensured.{ensure_conversation-Ensured}
use agent_state.Database.Inserted.{insert_message-eq-ok, insert_message-fresh}
use agent_state.Database.Keeps.{Keeps, Kept, Keeps-statement}
use agent_state.Database.Query.{filter_by, any_by}
use agent_state.Database.Snapshots.{insert_snapshot, insert_snapshot_item}
use agent_state.Database.Statements.{
  Counts, message_exists, in_conversation, ensure_conversation, insert_message, insert_item,
  place_item, placed, bigint_limit, update_counts, delete_items, delete_messages, doomed,
}
use agent_state.Database.WellFormed.{
  IsWellFormed, All-map, All-append, Pairwise-filter_by, any_by-append_left,
  conversations-IsWellFormed, later-IsWellFormed, message-IsWellFormed, item-IsWellFormed,
  fewer_items-IsWellFormed,
}

pub ensure_conversation-IsWellFormed :
    (id : Uuid) (now : Time) (t : Tables) (s : ℕ) (u : Unit {0}) (t' : Tables)
    → IsWellFormed t s
    → ensure_conversation id now t ≡ ok (u, t')
    → IsWellFormed t' s
ensure_conversation-IsWellFormed id now t s u t' v h =
    let e = ensure_conversation-Ensured id now t h in
    subst (λ x. IsWellFormed x s) (sym e.frame) (conversations-IsWellFormed t s t'.conversations v)

pub update_counts-IsWellFormed :
    (count : ℕ → ℕ) (id : Uuid) (now : Time) (t : Tables) (s : ℕ) (c : Counts) (t' : Tables)
    → IsWellFormed t s
    → update_counts count id now t ≡ ok (c, t')
    → IsWellFormed t' s
update_counts-IsWellFormed count id now t s c t' v h =
    let e = update_counts-Updated count id now t h in
    subst (λ x. IsWellFormed x s) (sym e.frame) (conversations-IsWellFormed t s t'.conversations v)

pub insert_message-IsWellFormed :
    (d : Driver) (now : Time) (row : MessageRow) (t : Tables) (s : ℕ) (c : Time) (t' : Tables)
    → IsWellFormed t s
    → insert_message d now row t ≡ ok (c, t')
    → IsWellFormed t' s
insert_message-IsWellFormed d now row t s c t' v h =
    let (cols, kept, at_now, same) = insert_message-eq-ok d now row t h in
    subst (λ x. IsWellFormed x s) (sym same)
      (message-IsWellFormed t s (record row { columns = cols; created_at = now }) v
        (insert_message-fresh d now row t h))

pub place_item-eq-ok :
    (id x n : Uuid) (t : Tables) {u : Unit {0}} {t' : Tables}
    → place_item id x n t ≡ ok (u, t')
    → (message_exists x t ≡ true)
      × (any_by (λ i. in_conversation id i && i.message_id == x) t.items ≡ false)
      × (t' ≡ record t {
        items = t.items ++ record { conversation_id = id; position = n; message_id = x } ∷ [];
      })
unfolding place_item
place_item-eq-ok id x n t h = (ground arith, ground arith, ground arith)

placed-Kept :
    (id x : Uuid) (w : World) (r : Result (Unit {0} × Tables))
    → IsWellFormed w.tables w.sequence
    → place_item id x (w.sequence + 1) w.tables ≡ r
    → Kept IsWellFormed w (placed r (record w { sequence = w.sequence + 1 })).1
placed-Kept id x w (ok (u, t)) v e =
    let (known, fresh, same) = place_item-eq-ok id x (w.sequence + 1) w.tables e in
    (
      subst (λ y. IsWellFormed y (w.sequence + 1)) (sym same)
          (item-IsWellFormed w.tables w.sequence
            (record { conversation_id = id; position = w.sequence + 1; message_id = x }) v refl
            known fresh),
      omega arith,
    )
placed-Kept id x w (err e) v h =
    (later-IsWellFormed w.tables w.sequence (w.sequence + 1) (omega arith) v, omega arith)

pub insert_item-Keeps : (d : Driver) (id x : Uuid) → Keeps IsWellFormed (insert_item d id x)
insert_item-Keeps d id x = Keeps-statement IsWellFormed d _ (record {
  at = λ w v. elim (Bool-cases (ltb (w.sequence + 1) bigint_limit)) [
    | inl fits ↦ rw fits (placed-Kept id x w (place_item id x (w.sequence + 1) w.tables) v refl)
    | inr full ↦ rw full (v, omega arith)
  ];
})

pub delete_items-IsWellFormed :
    (id : Uuid) (t : Tables) (s : ℕ) → IsWellFormed t s → IsWellFormed (delete_items id t) s
unfolding delete_items
delete_items-IsWellFormed id t s v =
    fewer_items-IsWellFormed t s (λ i. not (in_conversation id i)) v

-- An item that the cascade spares still has its message.
spared-present :
    (q : MessageRow → Bool) (x : Uuid) (ms : List MessageRow)
    → any_by (λ m. m.id == x) ms ≡ true
    → not (any_by (λ m. q m && m.id == x) ms) ≡ true
    → any_by (λ m. m.id == x) (filter_by (λ m. not (q m)) ms) ≡ true
spared-present q x [] h k = h
spared-present q x (m ∷ ms) h k = ground (arith, spared-present q x ms)

spared-All :
    (q : MessageRow → Bool) (ms : List MessageRow) (items : List Item)
    → All (λ i. any_by (λ m. m.id == i.message_id) ms ≡ true) items
    → All
        (λ i. any_by (λ m. m.id == i.message_id) (filter_by (λ m. not (q m)) ms) ≡ true)
        (filter_by (λ i. not (any_by (λ m. q m && m.id == i.message_id) ms)) items)
spared-All q ms [] h = tt
spared-All q ms (i ∷ is) h =
    elim (Bool-cases (not (any_by (λ m. q m && m.id == i.message_id) ms))) [
      | inl spared ↦ rw spared (spared-present q i.message_id ms h.0 spared, spared-All q ms is h.1)
      | inr gone ↦ rw gone (spared-All q ms is h.1)
    ]

pub delete_messages-IsWellFormed :
    (id : Uuid) (ids : List Uuid) (t : Tables) (s : ℕ)
    → IsWellFormed t s
    → IsWellFormed (delete_messages id ids t) s
unfolding delete_messages
delete_messages-IsWellFormed id ids t s v =
    let fewer =
      fewer_items-IsWellFormed t s
        (λ i. not (any_by (λ m. doomed id ids m && m.id == i.message_id) t.messages)) v in
    record {
      passed = fewer.passed;
      ascending = fewer.ascending;
      present = spared-All (doomed id ids) t.messages t.items v.present;
      messages = Pairwise-filter_by _ (λ m. not (doomed id ids m)) t.messages v.messages;
      entries = fewer.entries;
      copies = v.copies;
    }

pub insert_snapshot-IsWellFormed :
    (x id : Uuid) (now : Time) (t : Tables) (s : ℕ) (c : Time) (t' : Tables)
    → IsWellFormed t s
    → insert_snapshot x id now t ≡ ok (c, t')
    → IsWellFormed t' s
insert_snapshot-IsWellFormed x id now t s c t' v h =
    let new : Snapshot = record { id = x; conversation_id = id; created_at = now } in
    let (fresh, known, at_now, same) = insert_snapshot-eq-ok x id now t h in
    subst (λ y. IsWellFormed y s) (sym same)
      (record {
        passed = v.passed;
        ascending = v.ascending;
        present = v.present;
        messages = v.messages;
        entries = v.entries;
        copies =
            All-map _ _ t.snapshot_items
              (λ i p. any_by-append_left (λ z. z.id == i.snapshot_id) t.snapshots (new ∷ []) p)
              v.copies;
      })

pub insert_snapshot_item-IsWellFormed :
    (d : Driver) (item : SnapshotItem) (t : Tables) (s : ℕ) (u : Unit {0}) (t' : Tables)
    → IsWellFormed t s
    → insert_snapshot_item d item t ≡ ok (u, t')
    → IsWellFormed t' s
insert_snapshot_item-IsWellFormed d item t s u t' v h =
    let (cols, kept, same) = insert_snapshot_item-eq-ok d item t h in
    let known = insert_snapshot_item-known d item t h in
    subst (λ y. IsWellFormed y s) (sym same)
      (record {
        passed = v.passed;
        ascending = v.ascending;
        present = v.present;
        messages = v.messages;
        entries = v.entries;
        copies =
            All-append _ t.snapshot_items (record item { columns = cols } ∷ []) v.copies
              (known, tt);
      })
