-- ===== src/Store/Rounds.antt =====
-- The loop of internal/state/append.go: what its rounds insert and return.
use agent_state.Common.{
  ℕ, ◌+◌, ◌≡◌, refl, sym, ap, ◌∙◌, subst, List, [], ◌∷◌, ◌++◌, map, length, arith,
}
use mathlib.Core.Path.{subst₂}
use mathlib.Core.List.{append_assoc, append-nil}
use agent_state.Errors.{Uuid, ok, bind-eq-ok, ok-injective}
use agent_state.Message.{Time, Message, AppendMessageInput}
use agent_state.Message.Columns.{MapJson, MessageColumns, encode_message_body, decode_message_body}
use agent_state.Message.Row.{MessageRow, to_domain}
use agent_state.Database.{Tables, World, Driver}
use agent_state.Database.Inserted.{insert_message-eq-ok}
use agent_state.Database.Monad.{lift, wrapped, modify, tick}
use agent_state.Database.Outcome.{>>=-eq-ok, lift-eq-ok, wrapped-eq-ok, modify-eq-ok, pair_eq}
use agent_state.Database.Statements.{insert_message, insert_item, stored_columns}
use agent_state.Store.Append.{row_of, append_message, append_each}
use agent_state.Store.Rewrite.{new_items, after_items, insert_item-eq-ok}

-- The message that a round returns and the row that it leaves. The message is read back from the
-- columns that were sent; the row has them in the form in which the database keeps them.
pub record Stored (json : MapJson) (d : Driver) (id : Uuid) (now : Time)
    (input : AppendMessageInput) (m : Message) (row : MessageRow) : Type 0 where
  pub columns : MessageColumns
  pub encoded : encode_message_body json input.body ≡ ok columns
  pub returned : to_domain json (row_of m.id id input columns now) ≡ ok m
  pub kept : stored_columns d columns ≡ ok row.columns
  pub inserted : row ≡ row_of m.id id input row.columns now

-- One round for each input, in order.
pub data AllStored (json : MapJson) (d : Driver) (id : Uuid) (now : Time)
    : List AppendMessageInput → List Message → List MessageRow → Type 0 where
  none_left : AllStored json d id now [] [] []
  one_more :
      {input : AppendMessageInput} {m : Message} {row : MessageRow}
      {inputs : List AppendMessageInput} {ms : List Message} {rows : List MessageRow}
      → Stored json d id now input m row
      → AllStored json d id now inputs ms rows
      → AllStored json d id now (input ∷ inputs) (m ∷ ms) (row ∷ rows)

abbrev pub message_ids : List Message → List Uuid
message_ids ms = map (λ (m : Message). m.id) ms

-- The tables with new rows at the end.
abbrev pub with_rows : Uuid → ℕ → List MessageRow → List Uuid → Tables → Tables
with_rows id s rows ids t = record t {
  messages = t.messages ++ rows;
  items = t.items ++ new_items id s ids;
}

to_domain-id :
    (json : MapJson) (r : MessageRow) {m : Message} → to_domain json r ≡ ok m → m.id ≡ r.id
unfolding to_domain
to_domain-id json r {m} h =
    let (body, p, q) = bind-eq-ok (decode_message_body json r.columns) _ h in
    ap (λ (x : Message). x.id) (sym (ok-injective q))

module _ (json : MapJson) (d : Driver) (id : Uuid) (now : Time) where
  -- The parts of a round, from the calls that returned.
  parts-Stored :
      (input : AppendMessageInput) (cols kept : MessageColumns) (x : Uuid) (created : Time)
      (w w₁ w₃ w₄ w' : World) {m : Message}
      → encode_message_body json input.body ≡ ok cols
      → w₁ ≡ w
      → stored_columns d cols ≡ ok kept
      → created ≡ now
      → w₃ ≡ record (tick (tick w₁)) {
        tables = record w₁.tables {
          messages = w₁.tables.messages ++ row_of x id input kept now ∷ [];
        };
      }
      → w₄ ≡ after_items w₃ (w₃.tables.items ++ new_items id w₃.sequence (x ∷ [])) 1 1
      → to_domain json (row_of x id input cols created) ≡ ok m
      → w' ≡ w₄
      → (row : MessageRow) × Stored json d id now input m row
        × (w'.tables ≡ with_rows id w.sequence (row ∷ []) (m.id ∷ []) w.tables)
        × (w'.sequence ≡ w.sequence + 1)
  parts-Stored input cols kept x created w w₁ w₃ w₄ w' {m} encoded e₁ stored at_now e₃ e₄ read e₅ =
      let same : m.id ≡ x = to_domain-id json (row_of x id input cols created) read in
      let read_now : to_domain json (row_of x id input cols now) ≡ ok m =
        subst (λ c. to_domain json (row_of x id input cols c) ≡ ok m) at_now read in
      (
        row_of m.id id input kept now,
        record {
          columns = cols;
          encoded = encoded;
          returned =
              subst (λ y. to_domain json (row_of y id input cols now) ≡ ok m) (sym same) read_now;
          kept = stored;
          inserted = refl;
        },
        rw (same, e₅, e₄, e₃, e₁) refl,
        rw (e₅, e₄, e₃, e₁) refl,
      )

  -- A round that returns has added one row to the messages and one to the items.
  append_message-eq-ok :
      (input : AppendMessageInput) (w : World) {m : Message} {w' : World}
      → append_message json d id now input w ≡ (ok m, w')
      → (row : MessageRow) × Stored json d id now input m row
        × (w'.tables ≡ with_rows id w.sequence (row ∷ []) (m.id ∷ []) w.tables)
        × (w'.sequence ≡ w.sequence + 1)
  unfolding append_message
  append_message-eq-ok input w {m} {w'} h =
      let (cols, w₁, p₁, h₁) = >>=-eq-ok (lift (encode_message_body json input.body)) _ w h in
      let x = d.new_uuid w₁.calls in
      let w₂ = tick w₁ in
      let sent = row_of x id input cols now in
      let insert = modify d (insert_message d now sent) in
      let (created, w₃, p₃, h₃) = >>=-eq-ok (wrapped "insert message" insert) _ w₂ h₁ in
      let (u, w₄, p₄, h₄) =
        >>=-eq-ok (wrapped "insert conversation item" (insert_item d id x)) _ w₃ h₃ in
      let (encoded, same₁) = lift-eq-ok (encode_message_body json input.body) w p₁ in
      let (v, changed, same₃) =
        modify-eq-ok d (insert_message d now sent) w₂ (wrapped-eq-ok _ insert w₂ p₃) in
      let (kept, stored, at_now, into) = insert_message-eq-ok d now sent w₂.tables changed in
      let placed = insert_item-eq-ok d id x w₃ (wrapped-eq-ok _ (insert_item d id x) w₃ p₄) in
      let (read, same₄) = lift-eq-ok (to_domain json (row_of x id input cols created)) w₄ h₄ in
      parts-Stored input cols kept x created w w₁ w₃ w₄ w' encoded same₁ stored at_now
        (same₃ ∙ ap (λ (y : Tables). record (tick w₂) { tables = y }) into) placed read same₄

  -- The world after the first round and after the others, together.
  after_rounds :
      (row : MessageRow) (rows : List MessageRow) (x : Uuid) (xs : List Uuid) (w w₁ w₂ : World)
      → w₁.tables ≡ with_rows id w.sequence (row ∷ []) (x ∷ []) w.tables
      → w₁.sequence ≡ w.sequence + 1
      → w₂.tables ≡ with_rows id w₁.sequence rows xs w₁.tables
      → w₂.tables ≡ with_rows id w.sequence (row ∷ rows) (x ∷ xs) w.tables
  after_rounds row rows x xs w w₁ w₂ e s f =
      f
      ∙ rw (e, s)
          (rw
            (
              append_assoc w.tables.messages (row ∷ []) rows,
              append_assoc w.tables.items (new_items id w.sequence (x ∷ []))
                  (new_items id (w.sequence + 1) xs),
            )
            refl)

  -- What the loop over the inputs made of the world `w`.
  abbrev pub Looped : List AppendMessageInput → World → List Message → World → Type 0
  Looped inputs w ms v =
      (rows : List MessageRow) × AllStored json d id now inputs ms rows
      × (v.tables ≡ with_rows id w.sequence rows (message_ids ms) w.tables)
      × (v.sequence ≡ w.sequence + length ms)

  -- A loop that returns has stored one message for each input, at the end of the messages and of the
  -- items.
  pub append_each-eq-ok :
      (inputs : List AppendMessageInput) (w : World) {ms : List Message} {w' : World}
      → append_each json d id now inputs w ≡ (ok ms, w')
      → Looped inputs w ms w'
  unfolding append_each
  append_each-eq-ok [] w {ms} h =
      let p = pair_eq h in
      let none_made : [] ≡ ms = ok-injective p.0 in
      subst₂ (Looped [] w) none_made p.1 (
        [],
        none_left,
        rw (append-nil w.tables.messages, append-nil w.tables.items) refl,
        omega arith,
      )
  append_each-eq-ok (input ∷ inputs) w {ms} h =
      let (m, w₁, p₁, h₁) = >>=-eq-ok (append_message json d id now input) _ w h in
      let (rest, w₂, p₂, h₂) = >>=-eq-ok (append_each json d id now inputs) _ w₁ h₁ in
      let (row, stored, tables, sequence) = append_message-eq-ok input w p₁ in
      let (rows, others, tables', sequence') = append_each-eq-ok inputs w₁ p₂ in
      let p = pair_eq h₂ in
      subst₂ (Looped (input ∷ inputs) w) (ok-injective p.0) p.1 (
        row ∷ rows,
        one_more stored others,
        after_rounds row rows m.id (message_ids rest) w w₁ w₂ tables sequence tables',
        omega arith,
      )
