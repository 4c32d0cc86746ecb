-- ===== src/Store/Present.antt =====
-- `ensureMessagesExist` of internal/state/range_ops.go: the ids that it passes are ids of messages of
-- the conversation.
use agent_state.Common.{
  ℕ, ◌≡◌, sym, inl, inr, refl, true, false, ◌&&◌, ◌==◌, ==_iff, value_or, List, [], ◌∷◌, map, All,
  arith,
}
use agent_state.Errors.{Uuid, Result, ok}
use agent_state.Message.Row.{MessageRow}
use agent_state.Database.{Tables, World, Driver}
use agent_state.Database.Among.{Among, All-Among, filter_by-Among, ScansRows}
use agent_state.Database.Query.{filter_by}
use agent_state.Database.Monad.{query, lift}
use agent_state.Database.Outcome.{>>=-eq-ok, lift-eq-ok, wrapped-eq-ok, query-eq-ok, pair_eq}
use agent_state.Database.Statements.{select_messages, contains}
use agent_state.Errors.{ok-injective}
use agent_state.Store.Cut.{empty_map, collect_presence, mark_present, check_presence, Cut}
use agent_state.Store.Names.{Has}
use agent_state.Store.Range.{ensure_messages_exist, scan_ids, range_keys, insert_range}
use agent_state.Store.Cut.Presence.{
  collect_presence-Collected, collect_presence-All, collect_presence-Unmarked, mark_present-eq-true,
  check_presence-eq-ok, empty_map-Collected,
}

-- A loop over the keys of a map visits every key, in some order.
abbrev pub VisitsKeys : Driver → Type 0
VisitsKeys d = (n : ℕ) (keys : List Uuid) → All (λ k. Among k (d.map_keys n keys)) keys

Among-map :
    (x : Uuid) (rows : List MessageRow)
    → Among x (map (λ (m : MessageRow). m.id) rows)
    → (r : MessageRow) × Among r rows × (r.id ≡ x)
Among-map x [] m = absurd m
Among-map x (r ∷ rs) (inl e) = (r, inl refl, sym e)
Among-map x (r ∷ rs) (inr m) = let (s, place, e) = Among-map x rs m in (s, inr place, e)

module _ (d : Driver) (scans : ScansRows d) (visits : VisitsKeys d) (id : Uuid) where
  selected-Has :
      (n : ℕ) (unique : List Uuid) (t : Tables) (x : Uuid)
      → Among x (map (λ (m : MessageRow). m.id) (d.scan_rows n (select_messages id unique t)))
      → Has t.messages id x
  unfolding select_messages
  selected-Has n unique t x m =
      let rows =
        filter_by (λ (r : MessageRow). r.conversation_id == id && contains r.id unique)
          t.messages in
      let (r, scanned, e) = Among-map x (d.scan_rows n rows) m in
      let (place, chosen) =
        filter_by-Among (λ (r : MessageRow). r.conversation_id == id && contains r.id unique)
          t.messages (All-Among (λ z. Among z rows) (d.scan_rows n rows) (scans n rows) scanned) in
      (r, place, e, (==_iff r.conversation_id id).0 (ground arith))

  -- The ids of a map in which the rows are marked and the loop over the keys finds no other.
  marked-Has :
      (n n' : ℕ) (ids : List Uuid) (t : Tables)
      → (let found = collect_presence ids [] empty_map in
          check_presence (d.map_keys n' found.0) (
            mark_present
              (map (λ (m : MessageRow). m.id) (d.scan_rows n (select_messages id found.0 t)))
              found.1)
          ≡ ok tt)
      → All (λ x. Has t.messages id x) ids
  marked-Has n n' ids t h =
      let found = collect_presence ids [] empty_map in
      let rows = map (λ (m : MessageRow). m.id) (d.scan_rows n (select_messages id found.0 t)) in
      let marked = check_presence-eq-ok (d.map_keys n' found.0) (mark_present rows found.1) h in
      All-of_each _ _ ids
        (λ x known.
          let key : Among x found.0 =
            collect_presence-Collected ids [] empty_map empty_map-Collected x known in
          let visited = All-Among _ found.0 (visits n' found.0) key in
          let is_marked : value_or (mark_present rows found.1 x) false ≡ true =
            All-Among (λ k. value_or (mark_present rows found.1 k) false ≡ true)
              (d.map_keys n' found.0) marked visited in
          elim (mark_present-eq-true rows found.1 x is_marked) [
            | inl before ↦
                let unmarked = collect_presence-Unmarked ids [] empty_map (λ y. refl) x in
                ground arith
            | inr m ↦ selected-Has n found.0 t x m
          ])
        (collect_presence-All ids [] empty_map)
    where
      All-of_each :
          (P Q : Uuid → Type 0) (xs : List Uuid) → ((x : Uuid) → P x → Q x) → All P xs → All Q xs
      All-of_each P Q [] f h = tt
      All-of_each P Q (x ∷ xs) f h = (f x h.0, All-of_each P Q xs f h.1)

  ensure_messages_exist-Has :
      (ids : List Uuid) (w : World) {w' : World}
      → ensure_messages_exist d id ids w ≡ (ok tt, w')
      → All (λ x. Has w.tables.messages id x) ids
  unfolding ensure_messages_exist
  ensure_messages_exist-Has [] w h = tt
  ensure_messages_exist-Has (x ∷ xs) w h =
      let found = collect_presence (x ∷ xs) [] empty_map in
      let select : Tables → Result (List Uuid) =
        λ t. ok (map (λ m. m.id) (d.scan_rows w.calls (select_messages id found.0 t))) in
      let (rows, w₁, p₁, h₁) = >>=-eq-ok (scan_ids d id found.0) _ w h in
      let (keys, w₂, p₂, h₂) =
        >>=-eq-ok (range_keys d found.0)
          (λ keys. lift (check_presence keys (mark_present rows found.1))) w₁ h₁ in
      let (scanned, same) =
        query-eq-ok d select w (wrapped-eq-ok "verify message ids" (query d select) w p₁) in
      let passed = (lift-eq-ok (check_presence keys (mark_present rows found.1)) w₂ h₂).0 in
      let ranged : d.map_keys w₁.calls found.0 ≡ keys = ok-injective (pair_eq p₂).0 in
      marked-Has w.calls w₁.calls (x ∷ xs) w.tables (rw (ranged, ok-injective scanned) passed)

  -- The ids that a replacement inserts are those of messages of the conversation.
  pub insert_range-Has :
      (ids : List Uuid) (c : Cut) (w : World) {working : List Uuid} {w' : World}
      → insert_range d id ids c w ≡ (ok working, w')
      → All (λ x. Has w.tables.messages id x) ids
  insert_range-Has [] c w h = tt
  insert_range-Has (x ∷ xs) c w h =
      let (u, w₁, p, h₁) = >>=-eq-ok (ensure_messages_exist d id (x ∷ xs)) _ w h in
      ensure_messages_exist-Has (x ∷ xs) w p
