-- ===== src/Store/Walk.antt =====
-- A client that pages through ListConversationMessageIDs of internal/state/list.go.
use agent_state.Common.{ℕ, suc, ◌<◌, ◌≡◌, refl, ap, ◌∙◌, Option, none, List, length, take, arith}
use agent_state.Common.Int.{ℤ}
use agent_state.Errors.{Uuid, ok}
use agent_state.Page.{PageCursor, is_after}
use agent_state.Page.Scan.{normalize_page_size_range}
use agent_state.Page.Walk.{behind, page_of, scan-page_of}
use agent_state.Page.Client.{client, Serves, client-cover}
use agent_state.Database.{Item, Tables, World, Driver}
use agent_state.Database.Query.{filter_by, order_by}
use agent_state.Database.Filtered.{filter_by-and, filter_by-IsAscending}
use agent_state.Database.Ordered.{IsAscending, order_by-eq_of_ascending}
use agent_state.Database.Monad.{Db, ◌>>=◌, pure, tick}
use agent_state.Database.Statements.{Counts, in_conversation, select_counts, select_order}
use agent_state.Store.{metadata_of}
use agent_state.Store.List.{list_conversation_message_ids, select_ids_page, page_limit}

-- A database that refuses no call.
abbrev pub IsQuiet : Driver → Type 0
IsQuiet d = (n : ℕ) → d.fault n ≡ none

-- The rows of conversation_items of one conversation.
abbrev pub items_of : Uuid → Tables → List Item
items_of id t = filter_by (in_conversation id) t.items

select_ids_page-eq :
    (id : Uuid) (c : Option PageCursor) (limit : ℕ) (t : Tables)
    → IsAscending (λ i. i.position) (items_of id t)
    → select_ids_page id c limit t ≡ take (suc limit) (behind (λ i. i.position) c (items_of id t))
unfolding select_ids_page
select_ids_page-eq id c limit t asc = ap (take (suc limit)) (
    ap (order_by (λ (i : Item). i.position))
      (filter_by-and (in_conversation id) (λ i. is_after c i.position) t.items)
    ∙ order_by-eq_of_ascending (λ (i : Item). i.position) _
        (filter_by-IsAscending (λ i. i.position) (λ i. is_after c i.position) (items_of id t) asc))

pub page_limit-pos : (size : ℤ) → 0 < page_limit size
page_limit-pos size = let (lo, hi, same) = normalize_page_size_range size in omega arith

module _ (d : Driver) (quiet : IsQuiet d) (id : Uuid) (page_size : ℤ) where
  -- One request: the metadata, and the page behind the cursor.
  list_ids_run :
      (cursor : Option PageCursor) (c : Counts) (w : World)
      → select_counts id w.tables ≡ ok c
      → IsAscending (λ i. i.position) (items_of id w.tables)
      → list_conversation_message_ids d id page_size cursor w ≡ (
        ok (record {
          metadata = metadata_of id c;
          page =
              page_of
                (λ i. i.message_id)
                (λ i. i.position)
                (page_limit page_size)
                (behind (λ i. i.position) cursor (items_of id w.tables));
        }),
        tick (tick w),
      )
  unfolding list_conversation_message_ids
  list_ids_run cursor c w found asc =
      let limit = page_limit page_size in
      let rows = behind (λ (i : Item). i.position) cursor (items_of id w.tables) in
      ground (
        arith,
        quiet w.calls,
        quiet (suc w.calls),
        found,
        select_ids_page-eq id cursor limit w.tables asc,
        scan-page_of (λ (i : Item). i.message_id) (λ (i : Item). i.position) limit rows,
      )

  -- A client that asks for ids.
  pub walk_ids : ℕ → Option PageCursor → Db (List Uuid)
  walk_ids =
      client (λ cursor. do
        result ← list_conversation_message_ids d id page_size cursor
        pure result.page)

  pub list_ids-Serves :
      (c : Counts) (t : Tables)
      → select_counts id t ≡ ok c
      → IsAscending (λ i. i.position) (items_of id t)
      → Serves
          (λ cursor. do
            result ← list_conversation_message_ids d id page_size cursor
            pure result.page)
          (λ i. i.message_id)
          (λ i. i.position)
          (page_limit page_size)
          (items_of id t)
          t
  list_ids-Serves c t found asc cursor w e =
      let run = list_ids_run cursor c w (rw e found) (rw e asc) in
      (tick (tick w), rw (run, e) refl, e)

  -- Reading page after page gives the conversation's ids: where the conversation exists, the
  -- positions of its items grow and there are fewer of them than requests, no call is refused, and
  -- the pages, joined, are the order of the conversation.
  pub walk_ids-cover :
      (c : Counts) (w : World) (fuel : ℕ)
      → select_counts id w.tables ≡ ok c
      → IsAscending (λ i. i.position) (items_of id w.tables)
      → length (items_of id w.tables) < fuel
      → (walk_ids fuel none w).0 ≡ ok (select_order id w.tables)
  unfolding select_order walk_ids
  walk_ids-cover c w fuel found asc h =
      client-cover _ (λ i. i.message_id) (λ i. i.position) (page_limit page_size)
        (items_of id w.tables) w.tables (list_ids-Serves c w.tables found asc) fuel w refl
        (page_limit-pos page_size) asc h
      ∙ rw (order_by-eq_of_ascending (λ (i : Item). i.position) (items_of id w.tables) asc) refl
