-- ===== src/Database/WellFormed.antt =====
-- What the schema of migrations/0001_init.sql keeps of the tables: its keys, its references and the
-- growing positions of conversation_items.
use agent_state.Common.{
  ℕ, ◌+◌, ◌<◌, ◌≤◌, ◌≡◌, Bool, true, false, ◌&&◌, ◌==◌, ==_iff, Bool-cases, inl, inr, List, [], ◌∷◌,
  ◌++◌, All, arith,
}
use agent_state.Message.Row.{MessageRow}
use agent_state.Database.{Conversation, Item, Tables}
use agent_state.Database.Filtered.{All-filter_by}
use agent_state.Database.Ordered.{Pairwise, IsAscending}
use agent_state.Database.Query.{filter_by, any_by}
use agent_state.Database.Snapshots.{snapshot_exists}
use agent_state.Database.Statements.{message_exists, in_conversation}

-- The sequence has passed every position.
abbrev pub IsPassed : ℕ → List Item → Type 0
IsPassed s items = All (λ (i : Item). i.position ≤ s) items

-- The same message in the same conversation.
abbrev pub same_entry : Item → Item → Bool
same_entry i j = in_conversation i.conversation_id j && j.message_id == i.message_id

pub record IsWellFormed (t : Tables) (s : ℕ) : Type 0 where
  pub passed : IsPassed s t.items
  pub ascending : IsAscending (λ i. i.position) t.items
  -- conversation_items_message_id_fkey
  pub present : All (λ i. message_exists i.message_id t ≡ true) t.items
  -- messages_pkey
  pub messages : Pairwise (λ m n. (n.id == m.id) ≡ false) t.messages
  -- conversation_items_conversation_id_message_id_key
  pub entries : Pairwise (λ i j. same_entry i j ≡ false) t.items
  -- snapshot_items_snapshot_id_fkey
  pub copies : All (λ i. snapshot_exists i.snapshot_id t ≡ true) t.snapshot_items

module _ {A : Type 0} where
  pub All-append : (P : A → Type 0) (xs ys : List A) → All P xs → All P ys → All P (xs ++ ys)
  All-append P [] ys hx hy = hy
  All-append P (x ∷ xs) ys hx hy = (hx.0, All-append P xs ys hx.1 hy)

  pub All-map : (P Q : A → Type 0) (xs : List A) → ((x : A) → P x → Q x) → All P xs → All Q xs
  All-map P Q [] f h = tt
  All-map P Q (x ∷ xs) f h = (f x h.0, All-map P Q xs f h.1)

  pub Pairwise-snoc :
      (R : A → A → Type 0) (xs : List A) (y : A)
      → Pairwise R xs
      → All (λ x. R x y) xs
      → Pairwise R (xs ++ y ∷ [])
  Pairwise-snoc R [] y h k = (tt, tt)
  Pairwise-snoc R (x ∷ xs) y h k =
      (All-append (R x) xs (y ∷ []) h.0 (k.0, tt), Pairwise-snoc R xs y h.1 k.1)

  pub Pairwise-filter_by :
      (R : A → A → Type 0) (p : A → Bool) (xs : List A)
      → Pairwise R xs
      → Pairwise R (filter_by p xs)
  Pairwise-filter_by R p [] h = tt
  Pairwise-filter_by R p (x ∷ xs) h = elim (Bool-cases (p x)) [
    | inl kept ↦ rw kept (All-filter_by (R x) p xs h.0, Pairwise-filter_by R p xs h.1)
    | inr dropped ↦ rw dropped (Pairwise-filter_by R p xs h.1)
  ]

  pub any_by-append_left :
      (p : A → Bool) (xs ys : List A) → any_by p xs ≡ true → any_by p (xs ++ ys) ≡ true
  any_by-append_left p [] ys h = cc
  any_by-append_left p (x ∷ xs) ys h = ground (arith, any_by-append_left p xs ys)

  pub any_by-All : (p : A → Bool) (xs : List A) → any_by p xs ≡ false → All (λ x. p x ≡ false) xs
  any_by-All p [] h = tt
  any_by-All p (x ∷ xs) h = (ground arith, any_by-All p xs (ground arith))

-- Other tables may change.
pub conversations-IsWellFormed :
    (t : Tables) (s : ℕ) (cs : List Conversation)
    → IsWellFormed t s
    → IsWellFormed (record t { conversations = cs }) s
conversations-IsWellFormed t s cs v = record {
  passed = v.passed;
  ascending = v.ascending;
  present = v.present;
  messages = v.messages;
  entries = v.entries;
  copies = v.copies;
}

pub later-IsWellFormed : (t : Tables) (s s' : ℕ) → s ≤ s' → IsWellFormed t s → IsWellFormed t s'
later-IsWellFormed t s s' h v = record {
  passed =
      All-map (λ (i : Item). i.position ≤ s) (λ (i : Item). i.position ≤ s') t.items
        (λ i p. omega arith) v.passed;
  ascending = v.ascending;
  present = v.present;
  messages = v.messages;
  entries = v.entries;
  copies = v.copies;
}

pub message-IsWellFormed :
    (t : Tables) (s : ℕ) (row : MessageRow)
    → IsWellFormed t s
    → message_exists row.id t ≡ false
    → IsWellFormed (record t { messages = t.messages ++ row ∷ [] }) s
message-IsWellFormed t s row v fresh = record {
  passed = v.passed;
  ascending = v.ascending;
  present =
      All-map _ _ t.items
        (λ i h. any_by-append_left (λ m. m.id == i.message_id) t.messages (row ∷ []) h) v.present;
  messages = Pairwise-snoc _ t.messages row v.messages (
      All-map _ _ t.messages (λ m h. ground (arith, ==_iff row.id m.id, ==_iff m.id row.id))
        (any_by-All (λ m. m.id == row.id) t.messages fresh));
  entries = v.entries;
  copies = v.copies;
}

-- An item at the next position.
pub item-IsWellFormed :
    (t : Tables) (s : ℕ) (i : Item)
    → IsWellFormed t s
    → i.position ≡ s + 1
    → message_exists i.message_id t ≡ true
    → any_by (λ j. in_conversation i.conversation_id j && j.message_id == i.message_id) t.items
      ≡ false
    → IsWellFormed (record t { items = t.items ++ i ∷ [] }) (s + 1)
item-IsWellFormed t s i v at_end known fresh = record {
  passed =
      All-append (λ (j : Item). j.position ≤ s + 1) t.items (i ∷ [])
        (later-IsWellFormed t s (s + 1) (omega arith) v).passed (omega arith, tt);
  ascending =
      Pairwise-snoc (λ (x y : Item). x.position < y.position) t.items i v.ascending
        (All-map (λ (j : Item). j.position ≤ s) (λ (j : Item). j.position < i.position) t.items
          (λ j h. omega arith) v.passed);
  present =
      All-append (λ (j : Item). message_exists j.message_id t ≡ true) t.items (i ∷ []) v.present
        (known, tt);
  messages = v.messages;
  entries =
      Pairwise-snoc (λ j k. same_entry j k ≡ false) t.items i v.entries
        (All-map _ _ t.items
          (λ j h. ground (
            arith,
            ==_iff i.conversation_id j.conversation_id,
            ==_iff j.conversation_id i.conversation_id,
            ==_iff i.message_id j.message_id,
            ==_iff j.message_id i.message_id,
          ))
          (any_by-All _ t.items fresh));
  copies = v.copies;
}

-- Items may go.
pub fewer_items-IsWellFormed :
    (t : Tables) (s : ℕ) (p : Item → Bool)
    → IsWellFormed t s
    → IsWellFormed (record t { items = filter_by p t.items }) s
fewer_items-IsWellFormed t s p v = record {
  passed = All-filter_by _ p t.items v.passed;
  ascending = Pairwise-filter_by _ p t.items v.ascending;
  present = All-filter_by _ p t.items v.present;
  messages = v.messages;
  entries = Pairwise-filter_by _ p t.items v.entries;
  copies = v.copies;
}
