-- ===== src/Database/Ensured.antt =====
-- What the INSERT of a conversation, if there is none yet, does to its counts and to the others.
use agent_state.Common.{
  ◌≡◌, ◌≢◌, refl, subst, ◌⊎◌, inl, inr, Bool, true, false, none, some, List, [], ◌∷◌, ◌++◌, ◌==◌,
  ==_refl, arith, Bool-cases,
}
use agent_state.Errors.{Uuid, ok, err, no_rows}
use agent_state.Message.{Time}
use agent_state.Database.{Conversation, Tables}
use agent_state.Database.Query.{find_by, any_by}
use agent_state.Database.Statements.{
  Counts, counts_of, select_counts, conversation_exists, ensure_conversation,
}

module _ {A : Type 0} (p : A → Bool) where
  find_by-any_by : (xs : List A) → any_by p xs ≡ true → (a : A) × (find_by p xs ≡ some a)
  find_by-any_by [] h = ground arith
  find_by-any_by (x ∷ xs) h = elim (Bool-cases (p x)) [
    | inl here ↦ (x, rw here refl)
    | inr later ↦ let (a, e) = find_by-any_by xs (ground arith) in (a, rw later e)
  ]

  find_by-not_any_by : (xs : List A) → any_by p xs ≡ false → find_by p xs ≡ none
  find_by-not_any_by [] h = refl
  find_by-not_any_by (x ∷ xs) h = ground (arith, find_by-not_any_by xs)

  pub find_by-snoc :
      (xs : List A) (c : A) → any_by p xs ≡ false → p c ≡ true → find_by p (xs ++ c ∷ []) ≡ some c
  find_by-snoc [] c h e = ground arith
  find_by-snoc (x ∷ xs) c h e = ground (arith, find_by-snoc xs c)

  pub find_by-snoc_other :
      (xs : List A) (c : A) → p c ≡ false → find_by p (xs ++ c ∷ []) ≡ find_by p xs
  find_by-snoc_other [] c e = ground arith
  find_by-snoc_other (x ∷ xs) c e = ground (arith, find_by-snoc_other xs c e)

-- The counts that an append starts from: those of the conversation, or those of a new one.
abbrev pub StartsFrom : Uuid → Time → Tables → Counts → Type 0
StartsFrom id now t c =
    (select_counts id t ≡ ok c)
    ⊎ ((select_counts id t ≡ err no_rows)
        × (c ≡ record { message_count = 0; updated_at = now; version = 0 }))

pub record Ensured (id : Uuid) (now : Time) (t t' : Tables) : Type 0 where
  pub counts : Counts
  pub starts : StartsFrom id now t counts
  pub found : select_counts id t' ≡ ok counts
  pub others : (other : Uuid) → other ≢ id → select_counts other t' ≡ select_counts other t
  pub frame : t' ≡ record t { conversations = t'.conversations }

abbrev new_conversation : Uuid → Time → Conversation
new_conversation id now = record {
  id = id;
  message_count = 0;
  updated_at = now;
  version = 0;
  created_at = now;
}

module _ (id : Uuid) (now : Time) (t : Tables) where
  known-Ensured : conversation_exists id t ≡ true → Ensured id now t t
  unfolding select_counts
  known-Ensured h =
      let (c, e) = find_by-any_by (λ (c : Conversation). c.id == id) t.conversations h in
      record {
        counts = counts_of c;
        starts = inl (rw (e, select_counts) refl);
        found = rw (e, select_counts) refl;
        others = λ other ne. refl;
        frame = refl;
      }

  new-Ensured :
      conversation_exists id t ≡ false
      → Ensured id now t
          (record t { conversations = t.conversations ++ new_conversation id now ∷ [] })
  unfolding select_counts
  new-Ensured h = record {
    counts = counts_of (new_conversation id now);
    starts = inr (
      rw (find_by-not_any_by (λ (c : Conversation). c.id == id) t.conversations h, select_counts)
          refl,
      refl,
    );
    found =
        rw
          (
            find_by-snoc (λ (c : Conversation). c.id == id) t.conversations
                (new_conversation id now) h (==_refl id),
            select_counts,
          )
          refl;
    others = λ other ne.
        rw
          (
            find_by-snoc_other (λ (c : Conversation). c.id == other) t.conversations
                (new_conversation id now) (ground arith),
            select_counts,
          )
          refl;
    frame = refl;
  }

  pub ensure_conversation-Ensured :
      {u : Unit {0}} {t' : Tables} → ensure_conversation id now t ≡ ok (u, t') → Ensured id now t t'
  unfolding ensure_conversation
  ensure_conversation-Ensured {t' = t'} h = elim (Bool-cases (conversation_exists id t)) [
    | inl known ↦
        let same : t ≡ t' = ground arith in subst (Ensured id now t) same (known-Ensured known)
    | inr new ↦
        let same : record t { conversations = t.conversations ++ new_conversation id now ∷ [] }
            ≡ t' =
          ground arith in
        subst (Ensured id now t) same (new-Ensured new)
  ]
