-- ===== src/Store/Appended.antt =====
-- What an append of internal/state/append.go does.
use agent_state.Common.{
  ◌+◌, ◌≡◌, ◌≢◌, refl, sym, ap, ◌∙◌, subst, List, [], ◌∷◌, ◌++◌, length, arith,
}
use mathlib.Core.Path.{subst₂}
use agent_state.Errors.{Uuid, ok, ok-injective}
use agent_state.Message.{Time, Message, AppendMessageInput}
use agent_state.Message.Columns.{MapJson}
use agent_state.Message.Row.{MessageRow}
use agent_state.Database.{Tables, World, Driver}
use agent_state.Database.Monad.{wrapped, modify, tick}
use agent_state.Database.Counts.{Updated, update_counts-Updated}
use agent_state.Database.Ensured.{StartsFrom, Ensured, ensure_conversation-Ensured}
use agent_state.Database.Outcome.{>>=-eq-ok, run_tx-eq-ok, wrapped-eq-ok, modify-eq-ok, pair_eq}
use agent_state.Database.Statements.{
  Counts, select_counts, select_order, ensure_conversation, update_counts,
}
use agent_state.Store.{ConversationMetadata, metadata_of}
use agent_state.Store.Append.{append_each, append_tx, append_conversation_messages}
use agent_state.Store.Rewrite.{new_items}
use agent_state.Store.Rounds.{AllStored, Looped, message_ids, append_each-eq-ok}
use agent_state.Store.Written.{select_counts-conversations, select_order-items}
use agent_state.Database.WellFormed.{IsPassed}
use agent_state.Store.Extended.{with_items, select_order-append, select_order-append_other}

-- What an append changed: the conversation's order has the new messages at its end, and its counts
-- have grown by them, from those it had or from nothing.
pub record Appended (json : MapJson) (d : Driver) (id : Uuid) (now : Time)
    (inputs : List AppendMessageInput) (t : Tables) (m : ConversationMetadata) (ms : List Message)
    (t' : Tables) : Type 0 where
  pub rows : List MessageRow
  pub stored : AllStored json d id now inputs ms rows
  pub messages : t'.messages ≡ t.messages ++ rows
  pub ordered : select_order id t' ≡ select_order id t ++ message_ids ms
  pub before : Counts
  pub starts : StartsFrom id now t before
  pub counted : m ≡ record {
    id = id;
    message_count = before.message_count + length inputs;
    updated_at = now;
    version = before.version + 1;
  }
  pub counts : Counts
  pub found : select_counts id t' ≡ ok counts
  pub read : m ≡ metadata_of id counts
  pub other_orders : (other : Uuid) → other ≢ id → select_order other t' ≡ select_order other t
  pub other_counts : (other : Uuid) → other ≢ id → select_counts other t' ≡ select_counts other t
  pub same_snapshots : t'.snapshots ≡ t.snapshots
  pub same_snapshot_items : t'.snapshot_items ≡ t.snapshot_items

module _ (json : MapJson) (d : Driver) (id : Uuid) (now : Time)
    (inputs : List AppendMessageInput) where
  -- The three writes of the transaction, one after the other.
  parts-Appended :
      (w w₁ w₂ : World) (c : Counts) (ms : List Message) (t' : Tables)
      → IsPassed w.sequence w.tables.items
      → Ensured id now w.tables w₁.tables
      → w₁.sequence ≡ w.sequence
      → Looped json d id now inputs w₁ ms w₂
      → Updated (λ n. n + length inputs) id now w₂.tables c t'
      → Appended json d id now inputs w.tables (metadata_of id c) ms t'
  parts-Appended w w₁ w₂ c ms t' passed en seq (rows, stored, tables, grown) up =
      let t = w.tables in
      let items₁ : w₁.tables.items ≡ t.items = ap (λ (x : Tables). x.items) en.frame in
      let items : t'.items ≡ t.items ++ new_items id w.sequence (message_ids ms) =
        ap (λ (x : Tables). x.items) up.frame ∙ rw (tables, items₁, seq) refl in
      let counts₂ : (other : Uuid) → select_counts other w₁.tables ≡ select_counts other w₂.tables =
        λ other. select_counts-conversations other w₁.tables w₂.tables (rw tables refl) in
      let extended = with_items t (t.items ++ new_items id w.sequence (message_ids ms)) in
      let same_counts : up.before ≡ en.counts =
        ok-injective (sym up.found ∙ sym (counts₂ id) ∙ en.found) in
      record {
        rows = rows;
        stored = stored;
        messages =
            ap (λ (x : Tables). x.messages) up.frame
            ∙ rw tables (ap (λ (x : Tables). x.messages ++ rows) en.frame);
        ordered =
            select_order-items id t' extended items
            ∙ select_order-append id (message_ids ms) w.sequence t passed;
        before = en.counts;
        starts = en.starts;
        counted = rw (up.counted, up.versioned, up.stamped, same_counts) refl;
        counts = c;
        found = up.stored;
        read = refl;
        other_orders = λ other ne.
            select_order-items other t' extended items
            ∙ select_order-append_other id other (message_ids ms) w.sequence t (λ p. ne (sym p));
        other_counts = λ other ne. up.others other ne ∙ sym (counts₂ other) ∙ en.others other ne;
        same_snapshots =
            ap (λ (x : Tables). x.snapshots) up.frame
            ∙ rw tables (ap (λ (x : Tables). x.snapshots) en.frame);
        same_snapshot_items =
            ap (λ (x : Tables). x.snapshot_items) up.frame
            ∙ rw tables (ap (λ (x : Tables). x.snapshot_items) en.frame);
      }

  pub append_tx-eq-ok :
      (w : World) {m : ConversationMetadata} {ms : List Message} {w' : World}
      → IsPassed w.sequence w.tables.items
      → append_tx json d id inputs now w ≡ (ok (m, ms), w')
      → Appended json d id now inputs w.tables m ms w'.tables
  unfolding append_tx
  append_tx-eq-ok w {m} {ms} {w'} passed h =
      let ensure = modify d (ensure_conversation id now) in
      let grow = update_counts (λ n. n + length inputs) id now in
      let (u, w₁, p₁, h₁) = >>=-eq-ok (wrapped "ensure conversation" ensure) _ w h in
      let (made, w₂, p₂, h₂) = >>=-eq-ok (append_each json d id now inputs) _ w₁ h₁ in
      let (c, w₃, p₃, h₃) =
        >>=-eq-ok (wrapped "update conversation metadata" (modify d grow)) _ w₂ h₂ in
      let (t₁, e₁, f₁) =
        modify-eq-ok d (ensure_conversation id now) w (wrapped-eq-ok _ ensure w p₁) in
      let (t₃, e₃, f₃) = modify-eq-ok d grow w₂ (wrapped-eq-ok _ (modify d grow) w₂ p₃) in
      let done = pair_eq h₃ in
      let result = pair_eq (ok-injective done.0) in
      let ensured : Ensured id now w.tables w₁.tables =
        subst (Ensured id now w.tables) (ap (λ (x : World). x.tables) (sym f₁))
          (ensure_conversation-Ensured id now w.tables e₁) in
      let ended : t₃ ≡ w'.tables = ap (λ (x : World). x.tables) (sym f₃ ∙ done.1) in
      let updated : Updated (λ n. n + length inputs) id now w₂.tables c w'.tables =
        subst (Updated (λ n. n + length inputs) id now w₂.tables c) ended
          (update_counts-Updated (λ n. n + length inputs) id now w₂.tables e₃) in
      subst₂ (λ x xs. Appended json d id now inputs w.tables x xs w'.tables) result.0 result.1
        (parts-Appended w w₁ w₂ c made w'.tables passed ensured (ap (λ (x : World). x.sequence) f₁)
          (append_each-eq-ok json d id now inputs w₁ p₂) updated)

-- An append that returns, in tables whose positions the sequence has passed, has added one message
-- for each input, in order, at the end of the conversation's order and of the messages; the
-- conversation, made if there was none, counts them and its version has grown by one, and the other
-- conversations and the snapshots are as before.
pub append-Appended :
    (json : MapJson) (d : Driver) (id : Uuid) (inputs : List AppendMessageInput) (w : World)
    {m : ConversationMetadata} {ms : List Message} {w' : World}
    → IsPassed w.sequence w.tables.items
    → append_conversation_messages json d id inputs w ≡ (ok (m, ms), w')
    → Appended json d id (d.now w.calls) inputs w.tables m ms w'.tables
unfolding append_conversation_messages
append-Appended json d id [] w passed h = ground arith
append-Appended json d id (x ∷ xs) w {m} {ms} passed h =
    let (w₁, body, end) = run_tx-eq-ok d (append_tx json d id (x ∷ xs)) w h in
    subst (λ (v : World). Appended json d id (d.now w.calls) (x ∷ xs) w.tables m ms v.tables)
      (sym end) (append_tx-eq-ok json d id (d.now w.calls) (x ∷ xs) (tick w) passed body)
