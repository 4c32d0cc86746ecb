-- ===== src/Store/Extended.antt =====
-- Items whose positions are new stand at the end of the order: the effect of the inserts of
-- internal/state/append.go on what the SELECTs of an order return.
use agent_state.Common.{
  ℕ, ◌+◌, ◌≤◌, ◌<◌, ◌≡◌, ◌≢◌, refl, sym, ap, ◌∙◌, List, [], ◌∷◌, ◌++◌, map, All, arith,
}
use mathlib.Core.List.{append_assoc, append-nil}
use agent_state.Errors.{Uuid}
use agent_state.Database.{Item, Tables}
use agent_state.Database.Query.{filter_by, order_by}
use agent_state.Database.Ordered.{filter_by-append, filter_by-All, filter_by-none, order_by-snoc}
use agent_state.Database.WellFormed.{IsPassed, All-append}
use agent_state.Database.Statements.{select_order, in_conversation}
use agent_state.Store.Rewrite.{new_items, new_items-mine, new_items-others}

map-append {ℓ κ} :
    {A : Type ℓ} {B : Type κ} (f : A → B) (xs ys : List A) → map f (xs ++ ys) ≡ map f xs ++ map f ys
map-append f [] ys = refl
map-append f (x ∷ xs) ys = ap (λ t. f x ∷ t) (map-append f xs ys)

filter-below :
    (id : Uuid) (s : ℕ) (items : List Item)
    → IsPassed s items
    → All (λ (i : Item). i.position < s + 1) (filter_by (in_conversation id) items)
filter-below id s [] h = tt
filter-below id s (i ∷ is) h = ground (arith, filter-below id s is)

IsPassed-later : (s : ℕ) (items : List Item) → IsPassed s items → IsPassed (s + 1) items
IsPassed-later s [] h = tt
IsPassed-later s (i ∷ is) h = (omega arith, IsPassed-later s is h.1)

abbrev pub with_items : Tables → List Item → Tables
with_items t items = record t { items = items }

module _ (id : Uuid) where
  select_order-snoc :
      (s x : ℕ) (t : Tables)
      → IsPassed s t.items
      → select_order id (with_items t (t.items ++ new_items id s (x ∷ [])))
        ≡ select_order id t ++ x ∷ []
  unfolding select_order
  select_order-snoc s x t h =
      let new : Item = record { conversation_id = id; position = s + 1; message_id = x } in
      rw
        (
          filter_by-append (in_conversation id) t.items (new_items id s (x ∷ [])),
          filter_by-All (in_conversation id) (new_items id s (x ∷ []))
              (new_items-mine id s (x ∷ [])),
          order_by-snoc (λ (i : Item). i.position) (filter_by (in_conversation id) t.items) new
              (filter-below id s t.items h),
        )
        (map-append (λ (i : Item). i.message_id)
          (order_by (λ i. i.position) (filter_by (in_conversation id) t.items)) (new ∷ []))

  -- Items with new positions come at the end of the order.
  pub select_order-append :
      (xs : List Uuid) (s : ℕ) (t : Tables)
      → IsPassed s t.items
      → select_order id (with_items t (t.items ++ new_items id s xs)) ≡ select_order id t ++ xs
  select_order-append [] s t h = rw (append-nil t.items, append-nil (select_order id t)) refl
  select_order-append (x ∷ xs) s t h =
      let one = new_items id s (x ∷ []) in
      let t₁ = with_items t (t.items ++ one) in
      let passed : IsPassed (s + 1) t₁.items =
        All-append (λ (i : Item). i.position ≤ s + 1) t.items one (IsPassed-later s t.items h)
          (omega arith, tt) in
      ap (λ l. select_order id (with_items t l))
        (sym (append_assoc t.items one (new_items id (s + 1) xs)))
      ∙ select_order-append xs (s + 1) t₁ passed
      ∙ ap (λ l. l ++ xs) (select_order-snoc s x t h)
      ∙ append_assoc (select_order id t) (x ∷ []) xs

  pub select_order-append_other :
      (other : Uuid) (xs : List Uuid) (s : ℕ) (t : Tables)
      → id ≢ other
      → select_order other (with_items t (t.items ++ new_items id s xs)) ≡ select_order other t
  unfolding select_order
  select_order-append_other other xs s t h =
      rw
        (
          filter_by-append (in_conversation other) t.items (new_items id s xs),
          filter_by-none (in_conversation other) (new_items id s xs)
              (new_items-others id other s xs h),
          append-nil,
        )
        refl
