-- ===== src/Store/List.antt =====
-- internal/state/list.go: a conversation's messages, page by page.
use agent_state.Common.{
  ℕ, suc, String, Bool, true, false, Option, none, some, List, [], ◌∷◌, length, take, ◌&&◌, ◌==◌,
  if◌then◌else◌,
}
use agent_state.Common.Int.{ℤ, pos_part, neg_part}
use text.Mathlib.Text.{◌==◌ as str_eq}
use agent_state.Errors.{Uuid, ok}
use agent_state.Message.{Message}
use agent_state.Message.Columns.{MapJson}
use agent_state.Message.Row.{MessageRow, to_domain}
use agent_state.Page.{PageCursor, Page, is_after, normalize_page_size, scan_page}
use agent_state.Database.{Item, Tables, Driver}
use agent_state.Database.Query.{filter_by, find_by, order_by}
use agent_state.Database.Monad.{Db, ◌>>=◌, pure, lift, query}
use agent_state.Database.Statements.{in_conversation}
use agent_state.Store.{ConversationMetadata, load_conversation_metadata}

pub record MessageListFilter : Type 0 where
  pub roles : List ℤ
  pub kinds : List String

pub record MessageListResult : Type 0 where
  pub metadata : ConversationMetadata
  pub page : Page Message

pub record MessageIdListResult : Type 0 where
  pub metadata : ConversationMetadata
  pub page : Page Uuid

-- A row of the join of conversation_items and messages.
pub record ListedRow : Type 0 where
  pub row : MessageRow
  pub position : ℕ

-- JOIN messages m ON m.id = ci.message_id
unfoldable pub join_messages : List MessageRow → List Item → List ListedRow
join_messages messages [] = []
join_messages messages (i ∷ is) =
    let rest = join_messages messages is in
    elim (find_by (λ m. m.id == i.message_id) messages) [
      | none ↦ rest
      | some m ↦ record { row = m; position = i.position } ∷ rest
    ]

abbrev pub eq_ℤ : ℤ → ℤ → Bool
eq_ℤ a b = pos_part a == pos_part b && neg_part a == neg_part b

abbrev pub any_role : List ℤ → ℤ → Bool
any_role [] r = false
any_role (x ∷ xs) r = if eq_ℤ x r then true else any_role xs r

abbrev pub any_kind : List String → String → Bool
any_kind [] k = false
any_kind (x ∷ xs) k = if str_eq x k then true else any_kind xs k

-- `m.role = ANY($n)` and `m.kind = ANY($n)`, each asked only of a list that is not empty.
abbrev pub role_matches : List ℤ → ℤ → Bool
role_matches roles r = if length roles == 0 then true else any_role roles r

abbrev pub kind_matches : List String → String → Bool
kind_matches kinds k = if length kinds == 0 then true else any_kind kinds k

abbrev pub selected : MessageListFilter → ListedRow → Bool
selected filter l = role_matches filter.roles l.row.role && kind_matches filter.kinds l.row.kind

-- `limit := normalizePageSize(pageSize)`, which is positive
abbrev pub page_limit : ℤ → ℕ
page_limit size = pos_part (normalize_page_size size)

-- The query of ListConversationMessages, LIMIT limit + 1.
unfoldable pub select_messages_page :
    Uuid → MessageListFilter → Option PageCursor → ℕ → Tables → List ListedRow
unfolding join_messages order_by
select_messages_page id filter cursor limit t = take (suc limit) (
    order_by (λ l. l.position)
      (filter_by (λ l. selected filter l && is_after cursor l.position)
        (join_messages t.messages (filter_by (in_conversation id) t.items))))

-- The query of ListConversationMessageIDs, LIMIT limit + 1.
unfoldable pub select_ids_page : Uuid → Option PageCursor → ℕ → Tables → List Item
unfolding order_by
select_ids_page id cursor limit t = take (suc limit) (
    order_by (λ i. i.position)
      (filter_by (λ i. in_conversation id i && is_after cursor i.position) t.items))

module _ (json : MapJson) (d : Driver) where
  unfoldable pub list_conversation_messages :
      Uuid → MessageListFilter → ℤ → Option PageCursor → Db MessageListResult
  unfolding load_conversation_metadata select_messages_page scan_page
  list_conversation_messages id filter page_size cursor = do
    metadata ← load_conversation_metadata d id
    let limit = page_limit page_size
    rows ← query d (λ t. ok (select_messages_page id filter cursor limit t))
    page ← lift (scan_page (λ l. to_domain json l.row) (λ l. l.position) limit rows)
    pure (record { metadata = metadata; page = page })

module _ (d : Driver) where
  unfoldable pub list_conversation_message_ids :
      Uuid → ℤ → Option PageCursor → Db MessageIdListResult
  unfolding load_conversation_metadata select_ids_page scan_page
  list_conversation_message_ids id page_size cursor = do
    metadata ← load_conversation_metadata d id
    let limit = page_limit page_size
    rows ← query d (λ t. ok (select_ids_page id cursor limit t))
    page ← lift (scan_page (λ i. ok i.message_id) (λ i. i.position) limit rows)
    pure (record { metadata = metadata; page = page })
