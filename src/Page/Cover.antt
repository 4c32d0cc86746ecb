-- ===== src/Page/Cover.antt =====
-- A client that asks for page after page, from internal/state/list.go or snapshot.go, until there is
-- no cursor reads every row of an ascending listing once, in order.
use agent_state.Common.{
  ℕ, zero, suc, ◌≤◌, ◌<◌, ◌≡◌, refl, sym, ap, ◌∙◌, subst, Option, none, some, List, [], ◌∷◌, ◌++◌,
  map, length, take, drop, ltb, arith, length-drop, take-append-drop, take-eq_of_le, Bool-cases,
  All, true, inl, inr,
}
use mathlib.Core.List.{append-nil, append_assoc, map-append}
use agent_state.Common.Int.{pos}
use agent_state.Page.{PageCursor}
use agent_state.Page.Walk.{behind, behind_part, page_of}
use agent_state.Page.Scan.{last_position}
use agent_state.Database.Ordered.{IsAscending, filter_by-All}

-- The cursor of a page that is not the last has the following rows behind it.
behind_next :
    {R : Type 0} (position : R → ℕ) (n : ℕ) (front rest : List R)
    → 0 < n
    → n < length rest
    → IsAscending position (front ++ rest)
    → behind position
        (some (record { after_position = pos (last_position position 0 (take n rest)) }))
        (front ++ rest)
      ≡ drop n rest
behind_next position zero front rest p h asc = absurd (omega arith)
behind_next position (suc k) front [] p h asc = absurd (omega arith)
behind_next position (suc k) front (x ∷ xs) p h asc =
    let split = take-append-drop k xs in
    let cursor : PageCursor = record {
      after_position = pos (last_position position (position x) (take k xs));
    } in
    subst (λ t. behind position (some cursor) (front ++ (x ∷ t)) ≡ drop k xs) split
      (behind_part position front (take k xs) (drop k xs) x
        (subst (λ t. IsAscending position (front ++ (x ∷ t))) (sym split) asc))

All-true : {R : Type 0} (rows : List R) → All (λ r. true ≡ true) rows
All-true [] = tt
All-true (r ∷ rs) = (refl, All-true rs)

module _ {R A : Type 0} (f : R → A) (position : R → ℕ) (limit : ℕ) (rows : List R) where
  -- The entries that the client has after at most `fuel` requests, the first with the cursor `c`.
  unfoldable pub walk_pages : ℕ → Option PageCursor → List A
  walk_pages zero c = []
  walk_pages (suc fuel) c =
      let page = page_of f position limit (behind position c rows) in
      page.entries ++ elim page.next_cursor [ none ↦ [] | some next ↦ walk_pages fuel (some next) ]

  last_page :
      (fuel : ℕ) (c : Option PageCursor) (rest : List R)
      → behind position c rows ≡ rest
      → length rest ≤ limit
      → walk_pages (suc fuel) c ≡ map f rest
  unfolding walk_pages
  last_page fuel c rest e h =
      rw (e, take-eq_of_le limit rest h) (ground (arith, append-nil (map f rest)))

  more_pages :
      (fuel : ℕ) (c : Option PageCursor) (rest : List R)
      → behind position c rows ≡ rest
      → limit < length rest
      → walk_pages (suc fuel) c
        ≡ map f (take limit rest)
          ++ walk_pages fuel
              (some (record { after_position = pos (last_position position 0 (take limit rest)) }))
  unfolding walk_pages
  more_pages fuel c rest e h = rw e (ground arith)

  walk_from :
      (fuel : ℕ) (c : Option PageCursor) (front rest : List R)
      → 0 < limit
      → IsAscending position rows
      → rows ≡ front ++ rest
      → behind position c rows ≡ rest
      → length rest < fuel
      → walk_pages fuel c ≡ map f rest
  walk_from zero c front rest pos_limit asc e b h = absurd (omega arith)
  walk_from (suc fuel) c front rest pos_limit asc e b h =
      elim (Bool-cases (ltb limit (length rest))) [
        | inl more ↦
            let long : limit < length rest = ground arith in
            let parts = take-append-drop limit rest in
            more_pages fuel c rest b long
            ∙ ap (λ (l : List A). map f (take limit rest) ++ l)
                (walk_from fuel _ (front ++ take limit rest) (drop limit rest) pos_limit asc
                  (rw (append_assoc front (take limit rest) (drop limit rest), parts) e)
                  (subst
                    (λ l.
                      behind position
                        (some (record {
                          after_position = pos (last_position position 0 (take limit rest));
                        }))
                        l
                      ≡ drop limit rest)
                    (sym e)
                    (behind_next position limit front rest pos_limit long
                      (subst (IsAscending position) e asc)))
                  (omega (arith, length-drop limit rest)))
            ∙ sym (map-append f (take limit rest) (drop limit rest))
            ∙ ap (map f) parts
        | inr done ↦ last_page fuel c rest b (ground arith)
      ]

  -- With a positive limit and enough requests the client has every row of an ascending listing once,
  -- in its order.
  pub walk_pages-cover :
      (fuel : ℕ)
      → 0 < limit
      → IsAscending position rows
      → length rows < fuel
      → walk_pages fuel none ≡ map f rows
  walk_pages-cover fuel pos_limit asc h =
      walk_from fuel none [] rows pos_limit asc refl (filter_by-All _ rows (All-true rows)) h
