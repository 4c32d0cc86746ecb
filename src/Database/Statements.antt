-- ===== src/Database/Statements.antt =====
-- The SQL statements of internal/state, each on the tables that it reads and writes, with the
-- constraints of migrations/0001_init.sql that it can violate.
use agent_state.Common.{
  ℕ, ◌+◌, ◌^◌, Bool, true, false, Option, none, some, List, [], ◌∷◌, ◌++◌, map, ◌&&◌, ◌==◌, ltb,
  not, if◌then◌else◌,
}
use agent_state.Errors.{Uuid, Result, ok, err, no_rows, external}
use agent_state.Message.{Time}
use agent_state.Message.Columns.{MessageColumns}
use agent_state.Message.Row.{MessageRow}
use agent_state.Database.{Conversation, Item, Tables, World, Driver}
use agent_state.Database.Query.{filter_by, find_by, any_by, update_by, order_by}
use agent_state.Database.Monad.{Db, statement}

-- BIGINT and BIGSERIAL
abbrev pub bigint_limit : ℕ
bigint_limit = 2 ^ 63

-- `id = ANY($2)`
abbrev pub contains : Uuid → List Uuid → Bool
contains i [] = false
contains i (x ∷ xs) = if i == x then true else contains i xs

abbrev pub conversation_exists : Uuid → Tables → Bool
conversation_exists id t = any_by (λ c. c.id == id) t.conversations

abbrev pub message_exists : Uuid → Tables → Bool
message_exists id t = any_by (λ m. m.id == id) t.messages

-- `WHERE conversation_id = $1` of conversation_items
abbrev pub in_conversation : Uuid → Item → Bool
in_conversation id i = i.conversation_id == id

abbrev pub find_conversation : Uuid → Tables → Option Conversation
find_conversation id t = find_by (λ c. c.id == id) t.conversations

-- INSERT INTO conversations (id) VALUES ($1) ON CONFLICT (id) DO NOTHING
unfoldable pub ensure_conversation : Uuid → Time → Tables → Result (Unit {0} × Tables)
ensure_conversation id now t =
    if conversation_exists id t
    then ok (tt, t)
    else ok (
      tt,
      record t {
        conversations =
            t.conversations
            ++ record {
              id = id;
              message_count = 0;
              updated_at = now;
              version = 0;
              created_at = now;
            }
              ∷ [];
      },
    )

-- A JSONB column.
abbrev pub stored_columns : Driver → MessageColumns → Result MessageColumns
stored_columns d cols = elim cols.tool_metadata [
  | none ↦ ok cols
  | some buf ↦ elim (d.store_json buf) [
    | ok kept ↦ ok (record cols { tool_metadata = some kept })
    | err e ↦ err e
  ]
]

-- INSERT INTO messages ... RETURNING created_at
unfoldable pub insert_message : Driver → Time → MessageRow → Tables → Result (Time × Tables)
insert_message d now row t =
    if message_exists row.id t
    then err (external "duplicate key: messages_pkey")
    else if not (conversation_exists row.conversation_id t)
    then err (external "foreign key: messages_conversation_id_fkey")
    else elim (stored_columns d row.columns) [
      | ok cols ↦ ok (
        now,
        record t { messages = t.messages ++ record row { columns = cols; created_at = now } ∷ [] },
      )
      | err e ↦ err e
    ]

-- INSERT INTO conversation_items (conversation_id, message_id): `position` is the sequence's next
-- value, which is used up also when a constraint refuses the row.
unfoldable pub place_item : Uuid → Uuid → ℕ → Tables → Result (Unit {0} × Tables)
place_item conversation message position t =
    if not (conversation_exists conversation t)
    then err (external "foreign key: conversation_items_conversation_id_fkey")
    else if not (message_exists message t)
    then err (external "foreign key: conversation_items_message_id_fkey")
    else if any_by (λ i. in_conversation conversation i && i.message_id == message) t.items
    then err (external "duplicate key: conversation_items_conversation_id_message_id_key")
    else ok (
      tt,
      record t {
        items =
            t.items
            ++ record { conversation_id = conversation; position = position; message_id = message }
              ∷ [];
      },
    )

abbrev pub placed : Result (Unit {0} × Tables) → World → Result (Unit {0}) × World
placed (ok (_, t)) w = (ok tt, record w { tables = t })
placed (err e) w = (err e, w)

abbrev pub insert_item : Driver → Uuid → Uuid → Db (Unit {0})
insert_item d conversation message = statement d λ w.
    if ltb (w.sequence + 1) bigint_limit
    then placed (place_item conversation message (w.sequence + 1) w.tables)
        (record w { sequence = w.sequence + 1 })
    else (err (external "nextval: reached maximum value of sequence"), w)

-- What `SELECT message_count, updated_at, version` returns of a row.
pub record Counts : Type 0 where
  pub message_count : ℕ
  pub updated_at : Time
  pub version : ℕ

abbrev pub counts_of : Conversation → Counts
counts_of c = record {
  message_count = c.message_count;
  updated_at = c.updated_at;
  version = c.version;
}

-- SELECT message_count, updated_at, version FROM conversations WHERE id = $1
unfoldable pub select_counts : Uuid → Tables → Result Counts
select_counts id t = elim (find_conversation id t) [
  | none ↦ err no_rows
  | some c ↦ ok (counts_of c)
]

-- The row that an UPDATE of the counts writes, and the UPDATE of a row that was found.
abbrev pub counted_row : (ℕ → ℕ) → Time → Conversation → Conversation
counted_row count now c = record c {
  message_count = count c.message_count;
  updated_at = now;
  version = c.version + 1;
}

abbrev pub write_counts : (ℕ → ℕ) → Uuid → Time → Tables → Conversation → Result (Counts × Tables)
write_counts count id now t c =
    if ltb (count c.message_count) bigint_limit && ltb (c.version + 1) bigint_limit
    then ok (
      counts_of (counted_row count now c),
      record t {
        conversations = update_by (λ r. r.id == id) (λ _. counted_row count now c) t.conversations;
      },
    )
    else err (external "bigint out of range")

-- UPDATE conversations SET message_count = ..., updated_at = NOW(), version = version + 1
-- WHERE id = $1 RETURNING message_count, updated_at, version. The new count is computed from the row.
unfoldable pub update_counts : (ℕ → ℕ) → Uuid → Time → Tables → Result (Counts × Tables)
update_counts count id now t = elim (find_conversation id t) [
  | none ↦ err no_rows
  | some c ↦ write_counts count id now t c
]

-- SELECT message_id FROM conversation_items WHERE conversation_id = $1 ORDER BY position ASC
unfoldable pub select_order : Uuid → Tables → List Uuid
unfolding order_by
select_order id t =
    map (λ i. i.message_id) (order_by (λ i. i.position) (filter_by (in_conversation id) t.items))

-- DELETE FROM conversation_items WHERE conversation_id = $1
unfoldable pub delete_items : Uuid → Tables → Tables
delete_items id t = record t { items = filter_by (λ i. not (in_conversation id i)) t.items }

-- DELETE FROM messages WHERE conversation_id = $1 AND id = ANY($2), with the cascade to the items.
abbrev pub doomed : Uuid → List Uuid → MessageRow → Bool
doomed id ids m = m.conversation_id == id && contains m.id ids

unfoldable pub delete_messages : Uuid → List Uuid → Tables → Tables
delete_messages id ids t = record t {
  messages = filter_by (λ m. not (doomed id ids m)) t.messages;
  items =
      filter_by (λ i. not (any_by (λ m. doomed id ids m && m.id == i.message_id) t.messages))
        t.items;
}

-- SELECT ... FROM messages WHERE conversation_id = $1 AND id = ANY($2), before the order is chosen
unfoldable pub select_messages : Uuid → List Uuid → Tables → List MessageRow
select_messages id ids t = filter_by (λ m. m.conversation_id == id && contains m.id ids) t.messages
