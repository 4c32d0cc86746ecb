-- ===== src/Lib.antt =====
-- Agent state: the service that stores the message context of agent conversations in PostgreSQL.
--
-- A conversation is a row of counts, a table of messages, and an order: rows of conversation_items
-- with growing positions that name messages. internal/server turns gRPC requests into calls of
-- internal/state, whose operations run SQL in transactions: append messages, replace or delete a
-- range of the order, list pages of messages or ids, and take snapshots.
--
-- What models what (paths from the repository's root):
--
--   Errors              the sentinel errors of internal/state/types.go, errors.Is, wrapped errors
--   Message             the message types and Validate of internal/state/types.go
--   Message.Columns     internal/state/convert.go: encodeMessageBody, decodeMessageBody
--   Message.Row         internal/state/message_row.go: messageRow.toDomain
--   Database            the tables of migrations/0001_init.sql; World is the database with its
--                       sequence and a counter of calls
--   Database.Query      WHERE, ORDER BY and the lookup by a key
--   Database.Statements the SQL statements of internal/state with the constraints they can violate
--   Database.Monad      calls that may be refused, and runTx of internal/state/store.go
--   Store               the rest of store.go, and conversation.go
--   Store.Append        internal/state/append.go
--   Store.Cut           the parts of internal/state/range_ops.go that compute on ids
--   Store.Range         internal/state/range_ops.go
--   Store.List, Page    internal/state/list.go, and the page size and row loop of pagination.go
--   Store.Snapshot      internal/state/snapshot.go; Database.Snapshots has its SQL statements, and
--                       Message.Digest MarshalDeterministicJSON of internal/state/types.go
--   Store.Operations    any sequence of the operations that write, each returning or failing
--   Token               the page tokens of internal/state/pagination.go
--   Migrate             internal/db/migrate.go
--   Config              internal/config/config.go
--   Server              what the getters of the generated messages return
--   Server.Converter    internal/server/converter.go; the conversion of an int32 to an int16
--   Server.Status       toStatusError of internal/server/server.go
--   Server.Handlers     the handlers of server.go that write a conversation, and GetConversation
--   Server.Listings     the handlers of server.go that list pages, and those of snapshots
--   Server.Paging       a client of the service that sends back each page token it is given
--
-- The modules below these prove their properties; Tests runs the model at concrete inputs.
--
-- How the code is read. A pointer is an Option; an error result is the case err of Result; a map
-- of ids is a function into Option. An operation takes a World and returns its result beside the
-- new World, also after an error, so that a rollback is a step of the model. The ids of
-- google/uuid and the times are numbers that the code only compares and copies. BIGINT columns
-- refuse 2^63 and more. Strings stand for texts and for the bytes of JSON.
--
-- What is not in the repository is a parameter: MapJson is encoding/json on the metadata map,
-- UuidText is google/uuid on texts, TokenText is encoding/json and encoding/base64 on page tokens,
-- Digest is encoding/json and crypto/sha256 on a body that is copied, Files is the directory of
-- migrations that a build embeds, SchemaDriver is what the database does with these, and Driver is
-- what the database and the runtime choose. The Driver may refuse any call, gives NOW() and new
-- ids, orders rows and map keys where the code asks for no order, decides whether a commit that
-- reports an error took effect, and keeps JSONB. One operation runs at a time: other transactions do not run between its statements,
-- so a row lock has no effect here. A refusal of a query and an error while its rows are read are
-- one refusal. The loops are recursions on lists; only the clients that page through a listing
-- take fuel, more than the number of rows.
--
-- Migrate has a state of its own, the recorded versions beside the rest of the schema, which the SQL
-- of a file changes; it leaves the table of versions alone.
--
-- Not modelled: the texts of statuses; the PRIMARY KEY (conversation_id, position) of
-- conversation_items, which positions from the sequence do not violate; the refusal of a cursor that
-- INTEGER does not hold, where the model returns an empty page. The entry point only wires the
-- parts together.
pub mod Common
pub mod Errors
pub mod Message
pub mod Page
pub mod Token
pub mod Migrate
pub mod Config
pub mod Database
pub mod Store
pub mod Server
mod Tests
