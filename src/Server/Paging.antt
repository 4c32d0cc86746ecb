-- ===== src/Server/Paging.antt =====
-- A client of the service that pages through ListConversationMessageIds or ListSnapshotMessageIds of
-- internal/server/server.go: it sends each token back until it is given the empty one.
use mathlib.Core.List.{append-nil, map-append}
use agent_state.Common.{
  ℕ, zero, suc, String, ◌<◌, ◌≡◌, refl, sym, ap, ◌∙◌, false, Option, none, some, List, [], ◌++◌,
  map, length, ==_refl, is_empty_text, if◌then◌else◌, arith,
}
use agent_state.Common.Int.{ℤ}
use agent_state.Errors.{Uuid, Result, ok}
use agent_state.Page.{PageCursor, Page}
use agent_state.Page.Client.{Serves}
use agent_state.Page.Cover.{walk_pages, walk_pages-cover}
use agent_state.Page.Walk.{behind, page_of}
use agent_state.Database.{Tables, World}
use agent_state.Database.Monad.{Db}
use agent_state.Database.Ordered.{IsAscending}
use agent_state.Server.Handlers.{Reply, response, refusal}
use agent_state.Server.Listings.{IdsResponse, answered_page, made_reply, ids_response, read_cursor}
use agent_state.Token.{UuidText, TokenText}

module _ (call : String → World → Reply IdsResponse × World) where
  abbrev prepended : List String → Reply (List String) × World → Reply (List String) × World
  prepended ids (response rest, w) = (response (ids ++ rest), w)
  prepended ids (refusal s, w) = (refusal s, w)

  abbrev following :
      (String → World → Reply (List String) × World)
      → Reply IdsResponse × World
      → Reply (List String) × World
  following walk (refusal s, w) = (refusal s, w)
  following walk (response r, w) =
      if is_empty_text r.next_page_token
      then (response r.message_ids, w)
      else prepended r.message_ids (walk r.next_page_token w)

  -- At most `fuel` requests, the first with the token that is given.
  pub fetch_ids : ℕ → String → World → Reply (List String) × World
  fetch_ids zero token w = (response [], w)
  fetch_ids (suc fuel) token w = following (fetch_ids fuel) (call token w)

prepended_rest :
    (call : String → World → Reply IdsResponse × World) (ids xs : List String)
    (r : Reply (List String) × World)
    → r.0 ≡ response xs
    → (prepended call ids r).0 ≡ response (ids ++ xs)
prepended_rest call ids xs (response rest, w) h = ground arith
prepended_rest call ids xs (refusal s, w) h = ground arith

-- Tokens of the listing `id` are decoded to what they were encoded from.
abbrev pub Carries : Uuid → (ℤ → Result String) → (String → Result (Uuid × ℤ)) → Type 0
Carries id encode decode =
    (n : ℤ)
    → (token : String) × (encode n ≡ ok token)
      × (is_empty_text token ≡ false)
      × (decode token ≡ ok (id, n))

module _ (u : UuidText) (c : TokenText) (id : Uuid) (foreign : String) (encode : ℤ → Result String)
    (decode : String → Result (Uuid × ℤ)) (carries : Carries id encode decode)
    (request : Option PageCursor → Db (Page Uuid))
    (call : String → World → Reply IdsResponse × World)
    (calls : (token : String) (cursor : Option PageCursor)
      → read_cursor decode foreign id token ≡ ok cursor
      → (w : World)
      → call token w ≡ answered_page (ids_response u c encode) (request cursor w)) where
  rest_run :
      (walk : String → World → Reply (List String) × World) (o : Option PageCursor)
      (entries : List Uuid) (pages : PageCursor → List Uuid) (w : World)
      → ((n : PageCursor) (token : String)
          → read_cursor decode foreign id token ≡ ok (some n)
          → (walk token w).0 ≡ response (map u.print (pages n)))
      → (following call walk (
          made_reply (ids_response u c encode (record { entries = entries; next_cursor = o })) w)).0
        ≡ response (map u.print (entries ++ elim o [ none ↦ [] | some n ↦ pages n ]))
  rest_run walk none entries pages w h =
      ap (λ ids. response (map u.print ids)) (sym (append-nil entries))
  rest_run walk (some n) entries pages w h =
      let (token, encoded, full, decoded) = carries n.after_position in
      let read : read_cursor decode foreign id token ≡ ok (some n) =
        rw (full, decoded, ==_refl id) refl in
      rw (encoded, full)
        (prepended_rest call (map u.print entries) (map u.print (pages n)) (walk token w)
            (h n token read)
          ∙ ap response (sym (map-append u.print entries (pages n))))

  module _ {R : Type 0} (f : R → Uuid) (position : R → ℕ) (limit : ℕ) (rows : List R) (t : Tables)
      (serves : Serves request f position limit rows t) where
    fetch_run :
        (fuel : ℕ) (cursor : Option PageCursor) (token : String) (w : World)
        → read_cursor decode foreign id token ≡ ok cursor
        → w.tables ≡ t
        → (fetch_ids call fuel token w).0
          ≡ response (map u.print (walk_pages f position limit rows fuel cursor))
    unfolding fetch_ids walk_pages
    fetch_run zero cursor token w read e = refl
    fetch_run (suc fuel) cursor token w read e =
        let (w₁, run, same) = serves cursor w e in
        let page = page_of f position limit (behind position cursor rows) in
        rw (calls token cursor read w, run)
          (rest_run (fetch_ids call fuel) page.next_cursor page.entries
            (λ n. walk_pages f position limit rows fuel (some n)) w₁
            (λ n next read_next. fetch_run fuel (some n) next w₁ read_next same))

    pub fetch_ids-cover :
        (fuel : ℕ) (w : World)
        → w.tables ≡ t
        → 0 < limit
        → IsAscending position rows
        → length rows < fuel
        → (fetch_ids call fuel "" w).0 ≡ response (map u.print (map f rows))
    fetch_ids-cover fuel w e more asc enough =
        fetch_run fuel none "" w refl e
        ∙ ap (λ ids. response (map u.print ids))
            (walk_pages-cover f position limit rows fuel more asc enough)
