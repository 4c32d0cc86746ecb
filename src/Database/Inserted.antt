-- ===== src/Database/Inserted.antt =====
-- What an INSERT into messages that returns has done.
use agent_state.Common.{◌≡◌, refl, false, [], ◌∷◌, ◌++◌, arith, Bool-cases, inl, inr}
use agent_state.Errors.{Result, ok, err}
use agent_state.Message.{Time}
use agent_state.Message.Columns.{MessageColumns}
use agent_state.Message.Row.{MessageRow}
use agent_state.Database.{Tables, Driver}
use agent_state.Database.Statements.{
  insert_message, stored_columns, message_exists, conversation_exists,
}

inserted-eq-ok :
    (row : MessageRow) (now : Time) (t : Tables) (r : Result MessageColumns) {created : Time}
    {t' : Tables}
    → ◌≡◌ {A = Result (Time × Tables)}
        (elim r [
          | ok cols ↦ ok (
            now,
            record t {
              messages = t.messages ++ record row { columns = cols; created_at = now } ∷ [];
            },
          )
          | err e ↦ err e
        ])
        (ok (created, t'))
    → (cols : MessageColumns) × (r ≡ ok cols)
      × (created ≡ now)
      × (t' ≡ record t {
        messages = t.messages ++ record row { columns = cols; created_at = now } ∷ [];
      })
inserted-eq-ok row now t (ok cols) h = (cols, refl, ground arith, ground arith)
inserted-eq-ok row now t (err e) h = ground arith

-- A message that was inserted had a new id, and its row is as it was sent but for the columns, which
-- the database keeps in its own form.
pub insert_message-eq-ok :
    (d : Driver) (now : Time) (row : MessageRow) (t : Tables) {created : Time} {t' : Tables}
    → insert_message d now row t ≡ ok (created, t')
    → (cols : MessageColumns) × (stored_columns d row.columns ≡ ok cols)
      × (created ≡ now)
      × (t' ≡ record t {
        messages = t.messages ++ record row { columns = cols; created_at = now } ∷ [];
      })
unfolding insert_message
insert_message-eq-ok d now row t h = elim (Bool-cases (message_exists row.id t)) [
  | inl taken ↦ ground arith
  | inr fresh ↦ elim (Bool-cases (conversation_exists row.conversation_id t)) [
    | inl known ↦ inserted-eq-ok row now t (stored_columns d row.columns) (rw (fresh, known) at h)
    | inr unknown ↦ ground arith
  ]
]

pub insert_message-fresh :
    (d : Driver) (now : Time) (row : MessageRow) (t : Tables) {created : Time} {t' : Tables}
    → insert_message d now row t ≡ ok (created, t')
    → message_exists row.id t ≡ false
unfolding insert_message
insert_message-fresh d now row t h = elim (Bool-cases (message_exists row.id t)) [
  | inl taken ↦ ground arith
  | inr fresh ↦ fresh
]
