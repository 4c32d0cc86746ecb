-- ===== src/Page/Walk.antt =====
-- A client that follows the cursors of internal/state/pagination.go and list.go reads every row once.
use agent_state.Common.{
  ℕ, zero, suc, ◌≤◌, ◌<◌, ◌≡◌, refl, ap, Option, some, List, [], ◌∷◌, ◌++◌, map, take, All, arith,
  length-take,
}
use agent_state.Common.Int.{pos}
use agent_state.Errors.{ok}
use agent_state.Page.{PageCursor, Page, is_after, scan_page}
use agent_state.Page.Scan.{last_position, cursor_after, decode_all, scan_page_lem}
use agent_state.Database.Query.{filter_by}
use agent_state.Database.Ordered.{IsAscending}

module _ {R : Type 0} (position : R → ℕ) where
  -- The rows of a listing behind the cursor.
  abbrev pub behind : Option PageCursor → List R → List R
  behind c rows = filter_by (λ r. is_after c (position r)) rows

  abbrev cursor_at : ℕ → PageCursor
  cursor_at p = record { after_position = pos p }

  behind-All :
      (p : ℕ) (rows : List R)
      → All (λ r. p < position r) rows
      → behind (some (cursor_at p)) rows ≡ rows
  behind-All p [] h = refl
  behind-All p (r ∷ rs) h = ground (arith, behind-All p rs h.1)

  last_ge :
      (p : ℕ) (xs rest : List R)
      → IsAscending position (xs ++ rest)
      → All (λ r. p < position r) (xs ++ rest)
      → p ≤ last_position position p xs
  last_ge p [] rest h all = omega arith
  last_ge p (x ∷ xs) rest h all = omega (arith, last_ge (position x) xs rest h.1 h.0, all.0)

  behind_front :
      (p : ℕ) (front rest : List R)
      → IsAscending position (front ++ rest)
      → All (λ r. p < position r) (front ++ rest)
      → behind (some (cursor_at (last_position position p front))) (front ++ rest) ≡ rest
  behind_front p [] rest h all = behind-All p rest all
  behind_front p (x ∷ xs) rest h all =
      ground
        (arith, behind_front (position x) xs rest h.1 h.0, last_ge (position x) xs rest h.1 h.0)

  last_gt :
      (z : ℕ) (xs mid : List R) (x : R) (rest : List R)
      → All (λ r. z < position r) (xs ++ (x ∷ mid ++ rest))
      → z < last_position position (position x) mid
  last_gt z (y ∷ ys) mid x rest h = last_gt z ys mid x rest h.1
  last_gt z [] [] x rest h = h.0
  last_gt z [] (m ∷ mid) x rest h = last_gt z [] mid m rest h.1

  -- The rows behind the last one of a part of an ascending listing are those that follow it.
  pub behind_part :
      (front mid rest : List R) (x : R)
      → IsAscending position (front ++ (x ∷ mid ++ rest))
      → behind
          (some (cursor_at (last_position position (position x) mid)))
          (front ++ (x ∷ mid ++ rest))
        ≡ rest
  behind_part [] mid rest x h =
      ground
        (arith, behind_front (position x) mid rest h.1 h.0, last_ge (position x) mid rest h.1 h.0)
  behind_part (z ∷ front) mid rest x h =
      ground (arith, behind_part front mid rest x h.1, last_gt (position z) front mid x rest h.0)

decode_all-ok :
    {R A : Type 0} (f : R → A) (rows : List R) → decode_all (λ r. ok (f r)) rows ≡ ok (map f rows)
decode_all-ok f [] = refl
decode_all-ok f (r ∷ rs) = rw (decode_all-ok f rs)

take-take-suc : {R : Type 0} (n : ℕ) (rows : List R) → take n (take (suc n) rows) ≡ take n rows
take-take-suc zero rows = refl
take-take-suc (suc n) [] = refl
take-take-suc (suc n) (r ∷ rs) = ap (λ t. r ∷ t) (take-take-suc n rs)

module _ {R A : Type 0} (f : R → A) (position : R → ℕ) (limit : ℕ) where
  -- The page that a query with LIMIT limit + 1 and the row loop make of the rows behind a cursor.
  abbrev pub page_of : List R → Page A
  page_of rows = record {
    entries = map f (take limit rows);
    next_cursor = cursor_after position 0 limit rows;
  }

  pub scan-page_of :
      (rows : List R)
      → scan_page (λ r. ok (f r)) position limit (take (suc limit) rows) ≡ ok (page_of rows)
  scan-page_of rows =
      rw
        (
          scan_page_lem (λ r. ok (f r)) position limit (take (suc limit) rows),
          take-take-suc limit rows,
          decode_all-ok f (take limit rows),
        )
        (ground (arith, length-take (suc limit) rows))
