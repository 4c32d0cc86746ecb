-- ===== src/Store/Written.antt =====
-- What the writes that end both range operations of internal/state/range_ops.go do.
use agent_state.Common.{ℕ, ◌+◌, ◌≡◌, ◌≢◌, refl, sym, ap, ◌∙◌, subst, List, length, arith}
use agent_state.Errors.{Uuid, ok}
use agent_state.Message.{Time}
use agent_state.Message.Row.{MessageRow}
use agent_state.Database.{Tables, World, Driver}
use agent_state.Database.Monad.{wrapped, modify}
use agent_state.Database.Counts.{Updated, update_counts-Updated}
use agent_state.Database.Outcome.{>>=-eq-ok, wrapped-eq-ok, modify-eq-ok, pair_eq}
use agent_state.Database.Statements.{Counts, select_counts, select_order, update_counts}
use agent_state.Store.{ConversationMetadata, metadata_of}
use agent_state.Store.Range.{rewrite_conversation_order, store_count}
use agent_state.Store.Rewrite.{
  rewritten_items, rewrite_conversation_order-eq-ok, select_order-rewritten,
  select_order-rewritten_other,
}

-- A write of an order and its count, beside which the messages became `messages`: the order and the
-- counts of the conversation are new, those of the other conversations and the other tables are as
-- before.
pub record OrderWritten (id : Uuid) (order : List Uuid) (messages : List MessageRow) (t : Tables)
    (m : ConversationMetadata) (t' : Tables) : Type 0 where
  pub ordered : select_order id t' ≡ order
  pub counted : m.message_count ≡ length order
  pub versioned : (c : Counts) × (select_counts id t ≡ ok c) × (m.version ≡ c.version + 1)
  pub stored : (c : Counts) × (select_counts id t' ≡ ok c) × (m ≡ metadata_of id c)
  pub other_orders : (other : Uuid) → other ≢ id → select_order other t' ≡ select_order other t
  pub other_counts : (other : Uuid) → other ≢ id → select_counts other t' ≡ select_counts other t
  pub new_messages : t'.messages ≡ messages
  pub same_snapshots : t'.snapshots ≡ t.snapshots
  pub same_snapshot_items : t'.snapshot_items ≡ t.snapshot_items

-- The order of a conversation is read off its items, its counts off the conversations.
pub select_order-items :
    (id : Uuid) (t t' : Tables) → t.items ≡ t'.items → select_order id t ≡ select_order id t'
unfolding select_order
select_order-items id t t' e = rw e refl

pub select_counts-conversations :
    (id : Uuid) (t t' : Tables)
    → t.conversations ≡ t'.conversations
    → select_counts id t ≡ select_counts id t'
unfolding select_counts
select_counts-conversations id t t' e = rw e refl

-- Tables in which the order of a conversation is rewritten and nothing is counted yet.
pub record Rewritten (id : Uuid) (order : List Uuid) (messages : List MessageRow) (t u : Tables)
    : Type 0 where
  pub sequence : ℕ
  pub items : u.items ≡ rewritten_items id sequence order t.items
  pub conversations : u.conversations ≡ t.conversations
  pub messages_are : u.messages ≡ messages
  pub snapshots : u.snapshots ≡ t.snapshots
  pub snapshot_items : u.snapshot_items ≡ t.snapshot_items

module _ (id : Uuid) (order : List Uuid) (messages : List MessageRow) (now : Time)
    (t u : Tables) where
  -- The update of the counts that follows the rewrite.
  updated-OrderWritten :
      (c : Counts) (t' : Tables)
      → Rewritten id order messages t u
      → Updated (λ _. length order) id now u c t'
      → OrderWritten id order messages t (metadata_of id c) t'
  updated-OrderWritten c t' e up =
      let rewritten = record t { items = rewritten_items id e.sequence order t.items } in
      let items : t'.items ≡ rewritten.items = ap (λ (x : Tables). x.items) up.frame ∙ e.items in
      record {
        ordered =
            select_order-items id t' rewritten items ∙ select_order-rewritten id e.sequence order t;
        counted = up.counted;
        versioned = (
          up.before,
          select_counts-conversations id t u (sym e.conversations) ∙ up.found,
          up.versioned,
        );
        stored = (c, up.stored, refl);
        other_orders = λ other ne.
            select_order-items other t' rewritten items
            ∙ select_order-rewritten_other id e.sequence order t other (λ p. ne (sym p));
        other_counts =
            λ other ne. up.others other ne ∙ select_counts-conversations other u t e.conversations;
        new_messages = ap (λ (x : Tables). x.messages) up.frame ∙ e.messages_are;
        same_snapshots = ap (λ (x : Tables). x.snapshots) up.frame ∙ e.snapshots;
        same_snapshot_items = ap (λ (x : Tables). x.snapshot_items) up.frame ∙ e.snapshot_items;
      }

-- What `store_count` returned and left.
pub store_count-eq-ok :
    (d : Driver) (id : Uuid) (count : ℕ) (now : Time) (w : World) {m : ConversationMetadata}
    {w' : World}
    → store_count d id count now w ≡ (ok m, w')
    → (c : Counts) × (m ≡ metadata_of id c) × Updated (λ _. count) id now w.tables c w'.tables
store_count-eq-ok d id count now w {m} {w'} h =
    let change = update_counts (λ _. count) id now in
    let (c, w₁, p, q) = >>=-eq-ok (wrapped "update conversation" (modify d change)) _ w h in
    let (t, e, f) =
      modify-eq-ok d change w (wrapped-eq-ok "update conversation" (modify d change) w p) in
    let back = pair_eq q in
    let same : m ≡ metadata_of id c = ground arith in
    let tables : t ≡ w'.tables =
      ap (λ (x : World). x.tables) (sym f) ∙ ap (λ (x : World). x.tables) back.1 in
    (
      c,
      same,
      subst (Updated (λ _. count) id now w.tables c) tables
          (update_counts-Updated (λ _. count) id now w.tables e),
    )

-- What a rewrite that returns has left.
pub rewrite-Rewritten :
    (d : Driver) (id : Uuid) (order : List Uuid) (w w₁ : World)
    → rewrite_conversation_order d id order w ≡ (ok tt, w₁)
    → Rewritten id order w.tables.messages w.tables w₁.tables
rewrite-Rewritten d id order w w₁ p =
    let e = ap (λ (x : World). x.tables) (rewrite_conversation_order-eq-ok d id order w p) in
    record {
      sequence = w.sequence;
      items = ap (λ (x : Tables). x.items) e;
      conversations = ap (λ (x : Tables). x.conversations) e;
      messages_are = ap (λ (x : Tables). x.messages) e;
      snapshots = ap (λ (x : Tables). x.snapshots) e;
      snapshot_items = ap (λ (x : Tables). x.snapshot_items) e;
    }

-- The count of the order's length, in the transaction that has rewritten the order.
pub store_count-OrderWritten :
    (d : Driver) (id : Uuid) (order : List Uuid) (messages : List MessageRow) (now : Time)
    (t : Tables) (w w' : World) {m : ConversationMetadata}
    → Rewritten id order messages t w.tables
    → store_count d id (length order) now w ≡ (ok m, w')
    → OrderWritten id order messages t m w'.tables
store_count-OrderWritten d id order messages now t w w' e q =
    let (c, same, up) = store_count-eq-ok d id (length order) now w q in
    subst (λ (x : ConversationMetadata). OrderWritten id order messages t x w'.tables) (sym same)
      (updated-OrderWritten id order messages now t w.tables c w'.tables e up)
