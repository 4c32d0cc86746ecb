-- ===== src/Tests/Sample.antt =====
-- A database with one conversation of three messages and one message that is in no order.
use agent_state.Common.{ℕ, String, none, some, [], ◌∷◌, false}
use agent_state.Common.Int.{pos}
use agent_state.Errors.{ok, Uuid}
use agent_state.Message.Columns.{no_columns}
use agent_state.Message.Row.{MessageRow}
use agent_state.Database.{Item, Tables, World, Driver}

-- A database that refuses nothing and keeps every order.
abbrev pub quiet : Driver
quiet = record {
  fault = λ n. none;
  now = λ n. 1000;
  new_uuid = λ n. 100;
  scan_rows = λ n rows. rows;
  map_keys = λ n keys. keys;
  commit_applies = λ n. false;
  store_json = λ buf. ok buf;
}

abbrev pub row : Uuid → String → MessageRow
row id text = record {
  id = id;
  conversation_id = 7;
  role = pos 1;
  kind = "note";
  columns = record no_columns { body_text = some text };
  created_at = 5;
}

abbrev pub item : ℕ → Uuid → Item
item position id = record { conversation_id = 7; position = position; message_id = id }

abbrev pub tables : Tables
tables = record {
  conversations =
      record { id = 7; message_count = 3; updated_at = 5; version = 4; created_at = 1 } ∷ [];
  messages = row 11 "a" ∷ row 12 "b" ∷ row 13 "c" ∷ row 14 "d" ∷ [];
  items = item 1 11 ∷ item 2 12 ∷ item 3 13 ∷ [];
  snapshots = [];
  snapshot_items = [];
}

abbrev pub world : World
world = record { tables = tables; sequence = 3; calls = 0 }
