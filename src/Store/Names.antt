-- ===== src/Store/Names.antt =====
-- Which messages the orders of internal/state name: each conversation only messages of its own.
use agent_state.Common.{
  ℕ, ◌≡◌, sym, ap, ◌∙◌, subst, inl, inr, refl, Bool-cases, true, false, ◌==◌, ==_iff, List, [], ◌∷◌,
  ◌++◌, map, All, arith,
}
use agent_state.Errors.{Uuid}
use agent_state.Message.Row.{MessageRow}
use agent_state.Database.{Item, Tables}
use agent_state.Database.Among.{Among, All-Among}
use agent_state.Database.Ordered.{Pairwise, order_by-eq_of_ascending}
use agent_state.Database.Query.{filter_by}
use agent_state.Database.Statements.{select_order, contains, in_conversation}
use agent_state.Database.WellFormed.{IsWellFormed, Pairwise-filter_by, same_entry}
use agent_state.Store.Cascade.{IsConsistent, IsOwned}
use agent_state.Store.Distinct.{IsDistinct}
use agent_state.Store.Thinned.{Thinned, none_left, kept, gone}

-- One of the messages has the id and belongs to the conversation.
abbrev pub Has : List MessageRow → Uuid → Uuid → Type 0
Has messages id x = (r : MessageRow) × Among r messages × (r.id ≡ x) × (r.conversation_id ≡ id)

-- Each conversation's order names messages of the conversation.
abbrev pub NamesOwn : Tables → Type 0
NamesOwn t = (id : Uuid) → All (λ x. Has t.messages id x) (select_order id t)

module _ {A : Type 0} where
  pub Among-append_left : (a : A) (xs ys : List A) → Among a xs → Among a (xs ++ ys)
  Among-append_left a [] ys m = absurd m
  Among-append_left a (x ∷ xs) ys (inl e) = inl e
  Among-append_left a (x ∷ xs) ys (inr m) = inr (Among-append_left a xs ys m)

  pub Among-append_right : (a : A) (xs ys : List A) → Among a ys → Among a (xs ++ ys)
  Among-append_right a [] ys m = m
  Among-append_right a (x ∷ xs) ys m = inr (Among-append_right a xs ys m)

  pub Among-Thinned :
      {P : A → Type 0} {xs ys : List A} {a : A} → Thinned P xs ys → Among a xs → ¬ P a → Among a ys
  Among-Thinned none_left m h = absurd m
  Among-Thinned (kept k rest) (inl e) h = inl e
  Among-Thinned (kept k rest) (inr m) h = inr (Among-Thinned rest m h)
  Among-Thinned {P = P} (gone g rest) (inl e) h = absurd (h (subst P (sym e) g))
  Among-Thinned (gone g rest) (inr m) h = Among-Thinned rest m h

-- A message with the id of another is that one.
unique-IsOwned :
    (messages : List MessageRow) (r : MessageRow) (i : Item)
    → Pairwise (λ m n. (n.id == m.id) ≡ false) messages
    → Among r messages
    → r.id ≡ i.message_id
    → r.conversation_id ≡ i.conversation_id
    → IsOwned messages i
unique-IsOwned [] r i u m e f = absurd m
unique-IsOwned (x ∷ xs) r i u (inl same) e f =
    let id : x.id ≡ i.message_id = ap (λ (y : MessageRow). y.id) (sym same) ∙ e in
    let conversation : x.conversation_id ≡ i.conversation_id =
      ap (λ (y : MessageRow). y.conversation_id) (sym same) ∙ f in
    let others = none_with xs i (subst (λ k. All (λ n. (n.id == k) ≡ false) xs) id u.0) in
    ground (arith, others, (==_iff x.conversation_id i.conversation_id).1 conversation)
  where
    none_with :
        (xs : List MessageRow) (i : Item)
        → All (λ n. (n.id == i.message_id) ≡ false) xs
        → IsOwned xs i
    none_with [] i h = refl
    none_with (x ∷ xs) i h = ground (arith, none_with xs i h.1)
unique-IsOwned (x ∷ xs) r i u (inr m) e f =
    let rest = unique-IsOwned xs r i u.1 m e f in
    let differs : (r.id == x.id) ≡ false = All-Among (λ n. (n.id == x.id) ≡ false) xs u.0 m in
    ground (arith, rest, ==_iff x.id i.message_id, (==_iff r.id x.id).1)

-- An item of the conversation stands in its order.
item-ordered :
    (items : List Item) (i : Item)
    → Among i items
    → Among i.message_id
        (map (λ (j : Item). j.message_id) (filter_by (in_conversation i.conversation_id) items))
item-ordered [] i m = absurd m
item-ordered (j ∷ js) i (inl e) =
    let mine : in_conversation i.conversation_id j ≡ true =
      (==_iff j.conversation_id i.conversation_id).1
        (ap (λ (k : Item). k.conversation_id) (sym e)) in
    rw mine (inl (ap (λ (k : Item). k.message_id) e))
item-ordered (j ∷ js) i (inr m) = elim (Bool-cases (in_conversation i.conversation_id j)) [
  | inl mine ↦ rw mine (inr (item-ordered js i m))
  | inr other ↦ rw other (item-ordered js i m)
]

All-of_Among : {A : Type 0} (P : A → Type 0) (xs : List A) → ((a : A) → Among a xs → P a) → All P xs
All-of_Among P [] h = tt
All-of_Among P (x ∷ xs) h = (h x (inl refl), All-of_Among P xs (λ a m. h a (inr m)))

-- A conversation's order, where the positions grow, is that of its items.
order-items :
    (id : Uuid) (t : Tables) (s : ℕ)
    → IsWellFormed t s
    → select_order id t ≡ map (λ (i : Item). i.message_id) (filter_by (in_conversation id) t.items)
unfolding select_order
order-items id t s v = ap (map (λ (i : Item). i.message_id)) (
    order_by-eq_of_ascending (λ (i : Item). i.position) (filter_by (in_conversation id) t.items)
      (Pairwise-filter_by _ (in_conversation id) t.items v.ascending))

-- Entries of a conversation that differ name different messages.
entries-absent :
    (id : Uuid) (i : Item) (items : List Item)
    → in_conversation id i ≡ true
    → All (λ j. same_entry i j ≡ false) items
    → contains i.message_id
        (map (λ (j : Item). j.message_id) (filter_by (in_conversation id) items))
      ≡ false
entries-absent id i [] mine h = refl
entries-absent id i (j ∷ js) mine h = ground (
  arith,
  entries-absent id i js mine h.1,
  h.0,
  ==_iff i.conversation_id id,
  ==_iff j.conversation_id id,
  ==_iff j.conversation_id i.conversation_id,
  ==_iff i.message_id j.message_id,
  ==_iff j.message_id i.message_id,
)

entries-IsDistinct :
    (id : Uuid) (items : List Item)
    → Pairwise (λ i j. same_entry i j ≡ false) items
    → IsDistinct (map (λ (j : Item). j.message_id) (filter_by (in_conversation id) items))
entries-IsDistinct id [] h = tt
entries-IsDistinct id (i ∷ is) h = elim (Bool-cases (in_conversation id i)) [
  | inl mine ↦ rw mine (entries-absent id i is mine h.0, entries-IsDistinct id is h.1)
  | inr other ↦ rw other (entries-IsDistinct id is h.1)
]

-- In well formed tables whose orders name messages of their own, no other conversation has a message
-- that an item names, and no order names a message twice.
pub IsConsistent-of_names : (t : Tables) (s : ℕ) → IsWellFormed t s → NamesOwn t → IsConsistent t
IsConsistent-of_names t s v own = record {
  owned = All-of_Among (IsOwned t.messages) t.items (λ i m.
      let named : Among i.message_id (select_order i.conversation_id t) =
        subst (Among i.message_id) (sym (order-items i.conversation_id t s v))
          (item-ordered t.items i m) in
      let (r, place, e, f) =
        All-Among (λ x. Has t.messages i.conversation_id x) (select_order i.conversation_id t)
          (own i.conversation_id) named in
      unique-IsOwned t.messages r i v.messages place e f);
  distinct =
      λ id. subst IsDistinct (sym (order-items id t s v)) (entries-IsDistinct id t.items v.entries);
}
