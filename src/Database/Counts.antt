-- ===== src/Database/Counts.antt =====
-- What the UPDATE of a conversation's counts does to its row and to the others.
use agent_state.Common.{
  ℕ, ◌+◌, ◌≡◌, ◌≢◌, refl, subst, Bool, true, false, some, List, [], ◌∷◌, ◌==◌, arith, Option-cases,
  inl, inr,
}
use agent_state.Errors.{Uuid, ok}
use agent_state.Message.{Time}
use agent_state.Database.{Conversation, Tables}
use agent_state.Database.Query.{find_by, update_by}
use agent_state.Database.Statements.{
  Counts, counts_of, counted_row, write_counts, find_conversation, select_counts, update_counts,
}

module _ {A : Type 0} where
  find_by-holds : (p : A → Bool) (xs : List A) {a : A} → find_by p xs ≡ some a → p a ≡ true
  find_by-holds p [] h = ground arith
  find_by-holds p (x ∷ xs) {a} h = ground (arith, find_by-holds p xs {a = a})

  find_by-update_by :
      (p : A → Bool) (c : A) (xs : List A) {a : A}
      → p c ≡ true
      → find_by p xs ≡ some a
      → find_by p (update_by p (λ _. c) xs) ≡ some c
  find_by-update_by p c [] h e = ground arith
  find_by-update_by p c (x ∷ xs) {a} h e = ground (arith, find_by-update_by p c xs {a = a} h)

  find_by-update_by_other :
      (p q : A → Bool) (c : A) (xs : List A)
      → q c ≡ false
      → ((x : A) → p x ≡ true → q x ≡ false)
      → find_by q (update_by p (λ _. c) xs) ≡ find_by q xs
  find_by-update_by_other p q c [] h k = refl
  find_by-update_by_other p q c (x ∷ xs) h k =
      ground (arith, k x, find_by-update_by_other p q c xs h k)

-- What an update of the counts that returned `c` did.
pub record Updated (count : ℕ → ℕ) (id : Uuid) (now : Time) (t : Tables) (c : Counts) (t' : Tables)
    : Type 0 where
  pub before : Counts
  pub found : select_counts id t ≡ ok before
  pub counted : c.message_count ≡ count before.message_count
  pub versioned : c.version ≡ before.version + 1
  pub stamped : c.updated_at ≡ now
  pub stored : select_counts id t' ≡ ok c
  pub others : (other : Uuid) → other ≢ id → select_counts other t' ≡ select_counts other t
  pub frame : t' ≡ record t { conversations = t'.conversations }

module _ (count : ℕ → ℕ) (id : Uuid) (now : Time) (t : Tables) where
  row-Updated :
      (row : Conversation)
      → find_conversation id t ≡ some row
      → Updated count id now t (counts_of (counted_row count now row)) (record t {
        conversations =
            update_by (λ r. r.id == id) (λ _. counted_row count now row) t.conversations;
      })
  unfolding select_counts
  row-Updated row e =
      let mine : (row.id == id) ≡ true = find_by-holds (λ r. r.id == id) t.conversations e in
      record {
        before = counts_of row;
        found = rw (e, select_counts) refl;
        counted = refl;
        versioned = refl;
        stamped = refl;
        stored =
            rw
              (
                find_by-update_by (λ r. r.id == id) (counted_row count now row) t.conversations mine
                    e,
                select_counts,
              )
              refl;
        others = λ other ne.
            rw
              (
                find_by-update_by_other (λ r. r.id == id) (λ r. r.id == other)
                    (counted_row count now row) t.conversations (ground arith)
                    (λ r p. ground arith),
                select_counts,
              )
              refl;
        frame = refl;
      }

  write_counts-eq-ok :
      (row : Conversation) {c : Counts} {t' : Tables}
      → write_counts count id now t row ≡ ok (c, t')
      → ◌≡◌ {A = Counts × Tables}
          (
            counts_of (counted_row count now row),
            record t {
              conversations =
                  update_by (λ r. r.id == id) (λ _. counted_row count now row) t.conversations;
            },
          )
          (c, t')
  write_counts-eq-ok row h = ground arith

  pub update_counts-Updated :
      {c : Counts} {t' : Tables}
      → update_counts count id now t ≡ ok (c, t')
      → Updated count id now t c t'
  unfolding update_counts
  update_counts-Updated h = elim (Option-cases (find_conversation id t)) [
    | inl missing ↦ ground arith
    | inr (row, e) ↦
        subst (λ (r : Counts × Tables). Updated count id now t r.0 r.1)
          (write_counts-eq-ok row (ground arith)) (row-Updated row e)
  ]
