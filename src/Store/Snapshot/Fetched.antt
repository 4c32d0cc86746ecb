-- ===== src/Store/Snapshot/Fetched.antt =====
-- The messages that CreateSnapshot in internal/state/snapshot.go has read, by their ids.
use agent_state.Common.{
  ◌≡◌, subst, inl, inr, Bool-cases, true, some, Option-cases, List, [], ◌∷◌, All, arith, Bool, ◌&&◌,
  ◌==◌, ==_iff,
}
use agent_state.Errors.{Result, Uuid, ok, ok-injective}
use agent_state.Message.Row.{MessageRow}
use agent_state.Database.{Tables, World, Driver}
use agent_state.Database.Among.{Among, filter_by-Among, ScansRows}
use agent_state.Database.Query.{filter_by}
use agent_state.Database.Monad.{tick, query}
use agent_state.Database.Outcome.{wrapped-eq-ok, query-eq-ok}
use agent_state.Database.Statements.{select_messages, contains}
use agent_state.Store.Cut.{IdMap, assign, empty_map}
use agent_state.Store.Snapshot.{fetch_rows, fetched_row, load_messages}

-- A map of rows holds them under their own ids, and only rows of a list.
abbrev pub Holds : IdMap MessageRow → List MessageRow → Type 0
Holds fetched rows = (x : Uuid) (r : MessageRow) → fetched x ≡ some r → Among r rows × (r.id ≡ x)

assign-Holds :
    (fetched : IdMap MessageRow) (r : MessageRow) (rows : List MessageRow)
    → Holds fetched rows
    → Among r rows
    → Holds (assign fetched r.id r) rows
assign-Holds fetched r rows h place x s e = elim (Bool-cases (r.id == x)) [
  | inl same ↦
      let found : r ≡ s = ground arith in
      subst (λ (z : MessageRow). Among z rows × (z.id ≡ x)) found (place, (==_iff r.id x).0 same)
  | inr other ↦ h x s (ground arith)
]

pub fetch_rows-Holds :
    (rs : List MessageRow) (fetched : IdMap MessageRow) (rows : List MessageRow)
    → All (λ r. Among r rows) rs
    → Holds fetched rows
    → Holds (fetch_rows rs fetched) rows
unfolding fetch_rows
fetch_rows-Holds [] fetched rows all h = h
fetch_rows-Holds (r ∷ rs) fetched rows all h =
    fetch_rows-Holds rs (assign fetched r.id r) rows all.1 (assign-Holds fetched r rows h all.0)

pub fetched_row-eq-ok :
    (fetched : IdMap MessageRow) (x : Uuid) {r : MessageRow}
    → fetched_row fetched x ≡ ok r
    → fetched x ≡ some r
fetched_row-eq-ok fetched x h = elim (Option-cases (fetched x)) [
  | inl missing ↦ ground arith
  | inr (s, e) ↦ ground arith
]

-- The messages of a conversation.
abbrev pub messages_of : Uuid → Tables → List MessageRow
messages_of id t = filter_by (λ m. m.conversation_id == id) t.messages

Among-filter_by :
    (p : MessageRow → Bool) (xs : List MessageRow) {r : MessageRow}
    → Among r xs
    → p r ≡ true
    → Among r (filter_by p xs)
Among-filter_by p [] m h = absurd m
Among-filter_by p (x ∷ xs) (inl e) h =
    let kept : p x ≡ true = subst (λ y. p y ≡ true) e h in rw kept (inl e)
Among-filter_by p (x ∷ xs) (inr m) h = elim (Bool-cases (p x)) [
  | inl kept ↦ rw kept (inr (Among-filter_by p xs m h))
  | inr dropped ↦ rw dropped (Among-filter_by p xs m h)
]

Among-select_messages :
    (id : Uuid) (ids : List Uuid) (t : Tables) (r : MessageRow)
    → Among r (select_messages id ids t)
    → Among r (messages_of id t)
unfolding select_messages
Among-select_messages id ids t r m =
    let (place, chosen) =
      filter_by-Among (λ (x : MessageRow). x.conversation_id == id && contains x.id ids) t.messages
        m in
    Among-filter_by (λ x. x.conversation_id == id) t.messages place (ground arith)

All-messages_of :
    (id : Uuid) (ids : List Uuid) (t : Tables) (rows : List MessageRow)
    → All (λ r. Among r (select_messages id ids t)) rows
    → All (λ r. Among r (messages_of id t)) rows
All-messages_of id ids t [] h = tt
All-messages_of id ids t (r ∷ rs) h =
    (Among-select_messages id ids t r h.0, All-messages_of id ids t rs h.1)

none_held : (x : Uuid) (r : MessageRow) → empty_map {V = MessageRow} x ≡ some r → ⊥
none_held x r e = ground arith

-- The map that the query fills holds messages of the conversation.
pub load_messages-Holds :
    (d : Driver) (id : Uuid) (unique : List Uuid) (w : World) {rows : List MessageRow} {w' : World}
    → ScansRows d
    → load_messages d id unique w ≡ (ok rows, w')
    → Holds (fetch_rows rows empty_map) (messages_of id w.tables) × (w' ≡ tick w)
load_messages-Holds d id unique w {rows} scans h =
    let scanned = d.scan_rows w.calls (select_messages id unique w.tables) in
    let select : Tables → Result (List MessageRow) =
      λ t. ok (d.scan_rows w.calls (select_messages id unique t)) in
    let (found, same) =
      query-eq-ok d select w (wrapped-eq-ok "load messages" (query d select) w h) in
    let all : All (λ r. Among r (messages_of id w.tables)) rows =
      subst (All (λ r. Among r (messages_of id w.tables))) (ok-injective found) (
        All-messages_of id unique w.tables scanned
          (scans w.calls (select_messages id unique w.tables))) in
    (
      fetch_rows-Holds rows empty_map (messages_of id w.tables) all
          (λ x r e. absurd (none_held x r e)),
      same,
    )
