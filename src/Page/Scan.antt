-- ===== src/Page/Scan.antt =====
-- What the row loop returns: the first rows up to the limit, and a cursor exactly if more are left.
use agent_state.Common.{
  inl, inr, ℕ, zero, suc, ◌+◌, ◌≡◌, Option, none, some, List, [], ◌∷◌, ◌++◌, length, take, ltb,
  arith, if◌then◌else◌, length-append,
}
use mathlib.Core.List.{append-nil, append_assoc}
use agent_state.Common.Int.{ℤ, pos, ◌≤ℤ◌}
use agent_state.Errors.{Result, ok, ◌>>=◌, Result-cases}
use agent_state.Page.{PageCursor, normalize_page_size, scan_from, scan_page}

-- The page size lies in [1, 100], and a size in that range is kept.
pub normalize_page_size_range :
    (size : ℤ)
    → (pos 1 ≤ℤ normalize_page_size size)
      × (normalize_page_size size ≤ℤ pos 100)
      × (pos 1 ≤ℤ size → size ≤ℤ pos 100 → normalize_page_size size ≡ size)
unfolding normalize_page_size
normalize_page_size_range size = (ground arith, ground arith, λ lo hi. ground arith)

abbrev pub last_position : {R : Type 0} → (R → ℕ) → ℕ → List R → ℕ
last_position position last [] = last
last_position position last (r ∷ rs) = last_position position (position r) rs

-- `decode` at each row, up to the first error.
abbrev pub decode_all {ℓ} : {R A : Type ℓ} → (R → Result A) → List R → Result (List A)
decode_all decode [] = ok []
decode_all decode (r ∷ rs) = decode r >>= λ a. decode_all decode rs >>= λ rest. ok (a ∷ rest)

-- The cursor of a page that takes `n` of the rows: the last position taken, if rows are left.
abbrev pub cursor_after : {R : Type 0} → (R → ℕ) → ℕ → ℕ → List R → Option PageCursor
cursor_after position last n rows =
    if ltb n (length rows)
    then some (record { after_position = pos (last_position position last (take n rows)) })
    else none

module _ {R A : Type 0} (decode : R → Result A) (position : R → ℕ) (limit : ℕ) where
  scan_from_lem :
      (rows : List R) (entries : List A) (last n : ℕ)
      → length entries + n ≡ limit
      → scan_from decode position limit rows entries last ≡ (
          decode_all decode (take n rows) >>= λ found.
          ok (record {
            entries = entries ++ found;
            next_cursor = cursor_after position last n rows;
          }))
  unfolding scan_from
  scan_from_lem [] entries last zero h = rw append-nil
  scan_from_lem [] entries last (suc n) h = rw append-nil (ground arith)
  scan_from_lem (r ∷ rs) entries last zero h = rw append-nil (ground arith)
  scan_from_lem (r ∷ rs) entries last (suc n) h =
      let step = λ (a : A).
        scan_from_lem rs (entries ++ a ∷ []) (position r) n
          (omega (arith, length-append entries (a ∷ []))) in
      elim (Result-cases (decode r)) [
        | inl (a, e) ↦ elim (Result-cases (decode_all decode (take n rs))) [
          | inl (found, f) ↦
              rw (e, f) (ground (arith, step a, f, append_assoc entries (a ∷ []) found))
          | inr (x, f) ↦ rw (e, f) (ground (arith, step a, f))
        ]
        | inr (x, e) ↦ rw e (ground arith)
      ]

  -- A page holds the first `limit` rows, decoded, or is the first error among them; it has a cursor,
  -- the position of its last row, exactly if more rows were read.
  pub scan_page_lem :
      (rows : List R)
      → scan_page decode position limit rows ≡ (
          decode_all decode (take limit rows) >>= λ found.
          ok (record { entries = found; next_cursor = cursor_after position 0 limit rows }))
  unfolding scan_page
  scan_page_lem rows = scan_from_lem rows [] 0 limit (omega arith)
