-- ===== src/Store/Rewrite.antt =====
-- What `rewriteConversationOrder` of internal/state/range_ops.go leaves in conversation_items.
use agent_state.Common.{
  ℕ, suc, ◌+◌, ◌≤◌, ◌<◌, All, ◌≡◌, refl, ◌≢◌, ◌∙◌, true, false, List, [], ◌∷◌, ◌++◌, map, length,
  not, arith, ap, ==_refl,
}
use mathlib.Core.List.{append_assoc, append-nil}
use agent_state.Errors.{Uuid, Result, ok}
use agent_state.Database.{Item, Tables, World, Driver}
use agent_state.Database.Query.{filter_by}
use agent_state.Database.Monad.{modify, wrapped}
use agent_state.Database.Ordered.{
  IsAscending, filter_by-append, filter_by-disjoint, filter_by-All, filter_by-none,
  filter_by-filter_by, order_by-eq_of_ascending,
}
use agent_state.Database.Outcome.{>>=-eq-ok, wrapped-eq-ok, modify-eq-ok}
use agent_state.Database.Statements.{
  in_conversation, insert_item, place_item, delete_items, select_order,
}
use agent_state.Store.Range.{insert_items, clear_items, rewrite_conversation_order}

-- The items of consecutive inserts, by the sequence's value before them.
abbrev pub new_items : Uuid → ℕ → List Uuid → List Item
new_items id s [] = []
new_items id s (x ∷ xs) =
    record { conversation_id = id; position = s + 1; message_id = x } ∷ new_items id (s + 1) xs

-- The world after `n` more calls of the database.
abbrev pub after_items : World → List Item → ℕ → ℕ → World
after_items w items placed calls = record w {
  tables = record w.tables { items = items };
  sequence = w.sequence + placed;
  calls = w.calls + calls;
}

module _ (d : Driver) (id : Uuid) where
  pub insert_item-eq-ok :
      (x : Uuid) (w : World) {w' : World}
      → insert_item d id x w ≡ (ok tt, w')
      → w' ≡ after_items w (w.tables.items ++ new_items id w.sequence (x ∷ [])) 1 1
  unfolding place_item
  insert_item-eq-ok x w h = ground arith

  -- Inserts that all return have added their rows at the end, and nothing else.
  pub insert_items-eq-ok :
      (xs : List Uuid) (w : World) {w' : World}
      → insert_items d id xs w ≡ (ok tt, w')
      → w' ≡ after_items w (w.tables.items ++ new_items id w.sequence xs) (length xs) (length xs)
  unfolding insert_items
  insert_items-eq-ok [] w h = ground (arith, append-nil w.tables.items)
  insert_items-eq-ok (x ∷ xs) w h =
      let (a, w₁, p, q) =
        >>=-eq-ok (wrapped "insert conversation item" (insert_item d id x))
          (λ (u : Unit {0}). insert_items d id xs) w h in
      let e = insert_item-eq-ok x w (wrapped-eq-ok _ (insert_item d id x) w p) in
      insert_items-eq-ok xs w₁ q
      ∙ rw e (
          ground (
            arith,
            append_assoc w.tables.items (new_items id w.sequence (x ∷ []))
                (new_items id (w.sequence + 1) xs),
          ))

new_items-after :
    (id : Uuid) (lo s : ℕ) (xs : List Uuid)
    → lo ≤ s
    → All (λ (i : Item). lo < i.position) (new_items id s xs)
new_items-after id lo s [] h = tt
new_items-after id lo s (x ∷ xs) h = (omega arith, new_items-after id lo (s + 1) xs (omega arith))

pub new_items-IsAscending :
    (id : Uuid) (s : ℕ) (xs : List Uuid)
    → IsAscending (λ (i : Item). i.position) (new_items id s xs)
new_items-IsAscending id s [] = tt
new_items-IsAscending id s (x ∷ xs) =
    (new_items-after id (s + 1) (s + 1) xs (omega arith), new_items-IsAscending id (s + 1) xs)

pub new_items-mine :
    (id : Uuid) (s : ℕ) (xs : List Uuid)
    → All (λ i. in_conversation id i ≡ true) (new_items id s xs)
new_items-mine id s [] = tt
new_items-mine id s (x ∷ xs) = (==_refl id, new_items-mine id (s + 1) xs)

pub new_items-others :
    (id other : Uuid) (s : ℕ) (xs : List Uuid)
    → id ≢ other
    → All (λ i. in_conversation other i ≡ false) (new_items id s xs)
new_items-others id other s [] h = tt
new_items-others id other s (x ∷ xs) h = (ground arith, new_items-others id other (s + 1) xs h)

map-new_items :
    (id : Uuid) (s : ℕ) (xs : List Uuid) → map (λ i. i.message_id) (new_items id s xs) ≡ xs
map-new_items id s [] = refl
map-new_items id s (x ∷ xs) = ap (λ t. x ∷ t) (map-new_items id (s + 1) xs)

-- The rows after the rewrite of one conversation's order.
abbrev pub rewritten_items : Uuid → ℕ → List Uuid → List Item → List Item
rewritten_items id s order items =
    filter_by (λ i. not (in_conversation id i)) items ++ new_items id s order

module _ (id : Uuid) (s : ℕ) (order : List Uuid) (t : Tables) where
  pub select_order-rewritten :
      select_order id (record t { items = rewritten_items id s order t.items }) ≡ order
  unfolding select_order
  select_order-rewritten =
      rw
        (
          filter_by-append (in_conversation id)
              (filter_by (λ i. not (in_conversation id i)) t.items) (new_items id s order),
          filter_by-disjoint (in_conversation id) (λ i. not (in_conversation id i))
              (λ i p. ground arith) t.items,
          filter_by-All (in_conversation id) (new_items id s order) (new_items-mine id s order),
          order_by-eq_of_ascending (λ (i : Item). i.position) (new_items id s order)
              (new_items-IsAscending id s order),
        )
        (map-new_items id s order)

  pub select_order-rewritten_other :
      (other : Uuid)
      → id ≢ other
      → select_order other (record t { items = rewritten_items id s order t.items })
        ≡ select_order other t
  unfolding select_order
  select_order-rewritten_other other h =
      rw
        (
          filter_by-append (in_conversation other)
              (filter_by (λ i. not (in_conversation id i)) t.items) (new_items id s order),
          filter_by-filter_by (in_conversation other) (λ i. not (in_conversation id i))
              (λ i p. ground arith) t.items,
          filter_by-none (in_conversation other) (new_items id s order)
              (new_items-others id other s order h),
          append-nil,
        )
        refl

-- A rewrite that returns has replaced the conversation's rows by those of the new order.
pub rewrite_conversation_order-eq-ok :
    (d : Driver) (id : Uuid) (order : List Uuid) (w : World) {w' : World}
    → rewrite_conversation_order d id order w ≡ (ok tt, w')
    → w'
      ≡ after_items w
          (rewritten_items id w.sequence order w.tables.items)
          (length order)
          (suc (length order))
unfolding rewrite_conversation_order delete_items
rewrite_conversation_order-eq-ok d id order w h =
    let (a, w₁, p, q) =
      >>=-eq-ok (clear_items d id) (λ (u : Unit {0}). insert_items d id order) w h in
    let clear : Tables → Result (Unit {0} × Tables) = λ t. ok (tt, delete_items id t) in
    let (t, e, f) =
      modify-eq-ok d clear w (wrapped-eq-ok "clear conversation order" (modify d clear) w p) in
    insert_items-eq-ok d id order w₁ q ∙ rw f (ground arith)
