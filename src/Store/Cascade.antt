-- ===== src/Store/Cascade.antt =====
-- The cascade of a deletion in internal/state/range_ops.go: which items a deletion of messages takes
-- along.
use mathlib.Core.Path.{subst₂}
use agent_state.Common.{
  ℕ, ◌+◌, ◌≡◌, sym, refl, ap, ◌∙◌, subst, List, [], ◌∷◌, arith, Bool-cases, inl, inr, All, not,
  ◌&&◌, ◌==◌, true, false, ==_iff,
}
use agent_state.Errors.{Uuid, Result, ok, ok-injective}
use agent_state.Message.Row.{MessageRow}
use agent_state.Database.{Item, Tables, World, Driver}
use agent_state.Database.Query.{filter_by, any_by}
use agent_state.Database.Monad.{modify}
use agent_state.Database.Ordered.{filter_by-All}
use agent_state.Database.Outcome.{pair_eq, modify-eq-ok, wrapped-eq-ok}
use agent_state.Database.Statements.{
  select_order, delete_messages, doomed, contains, in_conversation,
}
use agent_state.Database.WellFormed.{All-append}
use agent_state.Store.Distinct.{IsDistinct, Avoids}
use agent_state.Store.Range.{delete_rows}
use agent_state.Store.Rewrite.{new_items, rewritten_items}
use agent_state.Store.Written.{Rewritten}

-- No message of another conversation has the id that the item names.
abbrev pub IsOwned : List MessageRow → Item → Type 0
IsOwned messages i =
    any_by (λ m. m.id == i.message_id && not (m.conversation_id == i.conversation_id)) messages
    ≡ false

-- No other conversation has a message that an item names, and no order names a message twice.
pub record IsConsistent (t : Tables) : Type 0 where
  pub owned : All (IsOwned t.messages) t.items
  pub distinct : (id : Uuid) → IsDistinct (select_order id t)

module _ (id : Uuid) (ids : List Uuid) where
  -- The cascade of the deletion leaves this item alone.
  abbrev Survives : List MessageRow → Item → Type 0
  Survives messages i = not (any_by (λ m. doomed id ids m && m.id == i.message_id) messages) ≡ true

  other_Survives :
      (messages : List MessageRow) (i : Item)
      → in_conversation id i ≡ false
      → IsOwned messages i
      → Survives messages i
  other_Survives [] i h o = refl
  other_Survives (m ∷ ms) i h o = ground (arith, other_Survives ms i h, ==_iff m.conversation_id id)

  avoided_Survives :
      (messages : List MessageRow) (i : Item)
      → contains i.message_id ids ≡ false
      → Survives messages i
  avoided_Survives [] i h = refl
  avoided_Survives (m ∷ ms) i h = elim (Bool-cases (m.id == i.message_id)) [
    | inl same ↦
        let absent : contains m.id ids ≡ false = rw ((==_iff m.id i.message_id).0 same) h in
        ground (arith, avoided_Survives ms i h)
    | inr other ↦ ground (arith, avoided_Survives ms i h)
  ]

  others_Survive :
      (messages : List MessageRow) (items : List Item)
      → All (IsOwned messages) items
      → All (Survives messages) (filter_by (λ i. not (in_conversation id i)) items)
  others_Survive messages [] h = tt
  others_Survive messages (i ∷ is) h = elim (Bool-cases (in_conversation id i)) [
    | inl mine ↦ rw mine (others_Survive messages is h.1)
    | inr other ↦ rw other (other_Survives messages i other h.0, others_Survive messages is h.1)
  ]

  new_Survive :
      (messages : List MessageRow) (s : ℕ) (order : List Uuid)
      → Avoids ids order
      → All (Survives messages) (new_items id s order)
  new_Survive messages s [] h = tt
  new_Survive messages s (x ∷ xs) h = (
    avoided_Survives messages (record { conversation_id = id; position = s + 1; message_id = x })
        h.0,
    new_Survive messages (s + 1) xs h.1,
  )

-- The deletion of rows that the new order does not name, after the rewrite.
delete_messages-Rewritten :
    (id : Uuid) (ids order : List Uuid) (t u : Tables)
    → All (IsOwned t.messages) t.items
    → Avoids ids order
    → Rewritten id order t.messages t u
    → Rewritten id order
        (filter_by (λ m. not (doomed id ids m)) t.messages)
        t
        (delete_messages id ids u)
unfolding delete_messages
delete_messages-Rewritten id ids order t u owned avoids e =
    let items = rewritten_items id e.sequence order t.items in
    let survive : All (λ i. Survives id ids t.messages i) items =
      All-append (λ i. Survives id ids t.messages i) _ (new_items id e.sequence order)
        (others_Survive id ids t.messages t.items owned)
        (new_Survive id ids t.messages e.sequence order avoids) in
    record {
      sequence = e.sequence;
      items = rw (e.items, e.messages_are) (filter_by-All _ items survive);
      conversations = e.conversations;
      messages_are = ap (filter_by (λ m. not (doomed id ids m))) e.messages_are;
      snapshots = e.snapshots;
      snapshot_items = e.snapshot_items;
    }

none_doomed : (id : Uuid) (ms : List MessageRow) → All (λ m. not (doomed id [] m) ≡ true) ms
none_doomed id [] = tt
none_doomed id (m ∷ ms) = (ground arith, none_doomed id ms)

module _ (d : Driver) (id : Uuid) where
  pub delete_rows-Rewritten :
      (ids order : List Uuid) (t : Tables) (w : World) {w' : World}
      → All (IsOwned t.messages) t.items
      → Avoids ids order
      → Rewritten id order t.messages t w.tables
      → delete_rows d id ids w ≡ (ok tt, w')
      → Rewritten id order (filter_by (λ m. not (doomed id ids m)) t.messages) t w'.tables
  delete_rows-Rewritten [] order t w owned avoids e h =
      subst₂ (λ ms u. Rewritten id order ms t u)
        (sym (filter_by-All (λ m. not (doomed id [] m)) t.messages (none_doomed id t.messages)))
        (ap (λ (z : World). z.tables) (pair_eq h).1) e
  delete_rows-Rewritten (x ∷ xs) order t w {w'} owned avoids e h =
      let change : Tables → Result (Unit {0} × Tables) =
        λ v. ok (tt, delete_messages id (x ∷ xs) v) in
      let (v, p, q) =
        modify-eq-ok d change w (wrapped-eq-ok "delete messages" (modify d change) w h) in
      subst (Rewritten id order (filter_by (λ m. not (doomed id (x ∷ xs) m)) t.messages) t)
        ((pair_eq (ok-injective p)).1 ∙ sym (ap (λ (z : World). z.tables) q))
        (delete_messages-Rewritten id (x ∷ xs) order t w.tables owned avoids e)
