-- ===== src/Page.antt =====
-- internal/state/pagination.go and the loop over the rows that every list operation has.
pub mod Scan
pub mod Walk
pub mod Cover
pub mod Client
use agent_state.Common.{
  ℕ, Bool, true, Option, none, some, List, [], ◌∷◌, ◌++◌, length, ◌==◌, if◌then◌else◌,
}
use agent_state.Common.Int.{ℤ, pos, leb_ℤ, ltb_ℤ}
use agent_state.Errors.{Result, ok, ◌>>=◌}

abbrev pub default_page_size : ℤ
default_page_size = pos 50

abbrev pub max_page_size : ℤ
max_page_size = pos 100

unfoldable pub normalize_page_size : ℤ → ℤ
normalize_page_size size =
    if leb_ℤ size (pos 0)
    then default_page_size
    else if ltb_ℤ max_page_size size
    then max_page_size
    else size

-- `position` and `order_idx` are BIGINT and INTEGER; a cursor from a token may be negative.
pub record PageCursor : Type 0 where
  pub after_position : ℤ

pub record Page (A : Type 0) : Type 0 where
  pub entries : List A
  pub next_cursor : Option PageCursor

-- `col > $n`, if there is a cursor.
abbrev pub is_after : Option PageCursor → ℕ → Bool
is_after none n = true
is_after (some c) n = ltb_ℤ c.after_position (pos n)

module _ {R A : Type 0} (decode : R → Result A) (position : R → ℕ) (limit : ℕ) where
  -- `for rows.Next()`, with `messages` and `lastPosition`; a row beyond the limit ends the page and
  -- leaves a cursor.
  unfoldable pub scan_from : List R → List A → ℕ → Result (Page A)
  scan_from [] entries last = ok (record { entries = entries; next_cursor = none })
  scan_from (r ∷ rs) entries last =
      let rest = (do a ← decode r; scan_from rs (entries ++ a ∷ []) (position r)) in
      if length entries == limit
      then ok
          (record { entries = entries; next_cursor = some (record { after_position = pos last }) })
      else rest

  unfoldable pub scan_page : List R → Result (Page A)
  unfolding scan_from
  scan_page rows = scan_from rows [] 0
