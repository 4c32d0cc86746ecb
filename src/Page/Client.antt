-- ===== src/Page/Client.antt =====
-- A client of the list operations: it asks for a page, then for the page behind the cursor that it
-- was given, until there is none.
use agent_state.Common.{
  ℕ, zero, suc, ◌<◌, ◌≡◌, refl, ◌∙◌, ap, Option, none, some, List, [], ◌++◌, map, length, arith,
}
use agent_state.Errors.{ok}
use agent_state.Page.{PageCursor, Page}
use agent_state.Page.Walk.{behind, page_of}
use agent_state.Page.Cover.{walk_pages, walk_pages-cover}
use agent_state.Database.{Tables, World}
use agent_state.Database.Monad.{Db, ◌>>=◌, continue, pure}
use agent_state.Database.Ordered.{IsAscending}

module _ {A : Type 0} (request : Option PageCursor → Db (Page A)) where
  -- At most `fuel` requests.
  pub client : ℕ → Option PageCursor → Db (List A)
  client zero cursor = pure []
  client (suc fuel) cursor = do
    page ← request cursor
    rest ← elim page.next_cursor [ none ↦ pure [] | some next ↦ client fuel (some next) ]
    pure (page.entries ++ rest)

-- What follows a page: nothing, or the pages behind its cursor.
rest_run :
    {A : Type 0} (o : Option PageCursor) (entries : List A) (walk : PageCursor → Db (List A))
    (pages : PageCursor → List A) (w : World)
    → ((n : PageCursor) → (walk n w).0 ≡ ok (pages n))
    → (continue
        (λ rest. pure (entries ++ rest))
        ((elim o as (λ _. Db (List A)) [ none ↦ pure [] | some n ↦ walk n ]) w)).0
      ≡ ok (entries ++ elim o [ none ↦ [] | some n ↦ pages n ])
rest_run none entries walk pages w h = refl
rest_run (some n) entries walk pages w h = ground (arith, h n)

-- Each request answers with its page of the same rows.
abbrev pub Serves :
    {R A : Type 0}
    → (Option PageCursor → Db (Page A))
    → (R → A)
    → (R → ℕ)
    → ℕ
    → List R
    → Tables
    → Type 0
Serves request f position limit rows t =
    (c : Option PageCursor) (w : World)
    → w.tables ≡ t
    → (w₁ : World) × (request c w ≡ (ok (page_of f position limit (behind position c rows)), w₁))
      × (w₁.tables ≡ t)

module _ {R A : Type 0} (request : Option PageCursor → Db (Page A)) (f : R → A) (position : R → ℕ)
    (limit : ℕ) (rows : List R) (t : Tables) (serves : Serves request f position limit rows t) where
  client_run :
      (fuel : ℕ) (cursor : Option PageCursor) (w : World)
      → w.tables ≡ t
      → (client request fuel cursor w).0 ≡ ok (walk_pages f position limit rows fuel cursor)
  unfolding client walk_pages
  client_run zero cursor w e = refl
  client_run (suc fuel) cursor w e =
      let (w₁, run, same) = serves cursor w e in
      let page = page_of f position limit (behind position cursor rows) in
      rw run (
        rest_run page.next_cursor page.entries (λ n. client request fuel (some n))
          (λ n. walk_pages f position limit rows fuel (some n)) w₁
          (λ n. client_run fuel (some n) w₁ same))

  -- With more requests than rows, of an ascending listing, the client has every row once, in order.
  pub client-cover :
      (fuel : ℕ) (w : World)
      → w.tables ≡ t
      → 0 < limit
      → IsAscending position rows
      → length rows < fuel
      → (client request fuel none w).0 ≡ ok (map f rows)
  client-cover fuel w e more asc enough =
      client_run fuel none w e ∙ ap ok (walk_pages-cover f position limit rows fuel more asc enough)
