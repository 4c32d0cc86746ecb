-- ===== src/Store/Cut/Splice.antt =====
-- The range that internal/state/range_ops.go cuts out of an order, against a description of it as the
-- middle of three parts.
use agent_state.Common.{
  ℕ, suc, ◌+◌, ◌-◌, ◌≤◌, ◌≡◌, refl, sym, ap, ◌∙◌, subst, false, Option, none, some, List, [], ◌∷◌,
  ◌++◌, length, take, drop, ltb, arith, length-append, length-take, take-append-drop,
}
use agent_state.Errors.{Uuid, ok, bind-eq-ok}
use agent_state.Store.Cut.{Cut, cut, cut_between, cut_at, slice, insert_at, index_map, index_of}
use agent_state.Store.Cut.Index.{
  get_elem?, first_of, last_of, first_of-drop, first_of-take, get_elem?-drop, last_of-take,
  get_elem?-lt, drop-split, index_of-eq-ok,
}

-- Where a replaced range lies: between its ends, or empty behind `from`, or empty before `to`.
abbrev pub AtEnds : Option Uuid → Option Uuid → List Uuid → List Uuid → List Uuid → Type 0
AtEnds (some f) (some t) before mid after = (first_of mid ≡ some f) × (last_of mid ≡ some t)
AtEnds (some f) none before mid after = (mid ≡ []) × (last_of before ≡ some f)
AtEnds none (some t) before mid after = (mid ≡ []) × (first_of after ≡ some t)
AtEnds none none before mid after = (mid ≡ []) × (before ≡ [])

-- `c` cuts the middle out of `order`, and marks the place where it stood.
pub record Splices (from to : Option Uuid) (order : List Uuid) (c : Cut) : Type 0 where
  pub before : List Uuid
  pub after : List Uuid
  pub whole : order ≡ before ++ (c.replaced ++ after)
  pub rest : c.working ≡ before ++ after
  pub place : c.insert_pos ≡ length before
  pub ends : AtEnds from to before c.replaced after

take-length_append : (xs ys : List Uuid) → take (length xs) (xs ++ ys) ≡ xs
take-length_append [] ys = refl
take-length_append (x ∷ xs) ys = ap (λ t. x ∷ t) (take-length_append xs ys)

drop-length_append : (xs ys : List Uuid) → drop (length xs) (xs ++ ys) ≡ ys
drop-length_append [] ys = refl
drop-length_append (x ∷ xs) ys = drop-length_append xs ys

-- The insertion at the marked place puts the ids between the two parts.
pub insert_at-splice :
    (ids before after : List Uuid)
    → insert_at (length before) ids (before ++ after) ≡ before ++ (ids ++ after)
insert_at-splice ids before after =
    let fits : ltb (length (before ++ after)) (length before) ≡ false =
      ground (arith, length-append before after) in
    rw (fits, take-length_append before after, drop-length_append before after)

same_end : (i j : ℕ) → i ≤ j → i + (j + 1 - i) ≡ j + 1
same_end i j h = omega arith

width : (i j : ℕ) → i ≤ j → j + 1 - i ≡ suc (j - i)
width i j h = omega arith

-- A list as the slice from `i` to `j` with what stands before and behind it.
pub three_parts :
    (order : List Uuid) (i j : ℕ)
    → i ≤ j
    → order ≡ take i order ++ (slice i (j + 1) order ++ drop (j + 1) order)
three_parts order i j h =
    let n = j + 1 - i in
    subst (λ k. order ≡ take i order ++ (take n (drop i order) ++ drop k order)) (same_end i j h)
      (sym (rw (drop-split order i n) (take-append-drop i order)))

pub slice_first :
    (order : List Uuid) (i j : ℕ) {f : Uuid}
    → i ≤ j
    → get_elem? order i ≡ some f
    → first_of (slice i (j + 1) order) ≡ some f
slice_first order i j h e =
    rw (width i j h) (first_of-take (drop i order) (j - i) ∙ first_of-drop order i ∙ e)

pub slice_last :
    (order : List Uuid) (i j : ℕ) {t : Uuid}
    → i ≤ j
    → get_elem? order j ≡ some t
    → last_of (slice i (j + 1) order) ≡ some t
slice_last order i j h e =
    let place : i + (j - i) ≡ j = omega arith in
    rw (width i j h) (
      last_of-take (drop i order) (j - i)
        (get_elem?-drop order i (j - i) ∙ ap (get_elem? order) place ∙ e))

-- What a slice between two places that hold `f` and `t` cuts out.
module _ (f t : Uuid) (order : List Uuid) (i j : ℕ) where
  between :
      i ≤ j
      → get_elem? order i ≡ some f
      → get_elem? order j ≡ some t
      → Splices (some f) (some t) order (record {
        working = take i order ++ drop (j + 1) order;
        replaced = slice i (j + 1) order;
        insert_pos = i;
      })
  between h e g = record {
    before = take i order;
    after = drop (j + 1) order;
    whole = three_parts order i j h;
    rest = refl;
    place = omega (arith, length-take i order, get_elem?-lt order i e);
    ends = (slice_first order i j h e, slice_last order i j h g);
  }

-- A place in front of which nothing is replaced.
at_place :
    (order : List Uuid) (k : ℕ)
    → k ≤ length order
    → (from to : Option Uuid) → AtEnds from to (take k order) [] (drop k order)
    → Splices from to order (record { working = order; replaced = []; insert_pos = k })
at_place order k h from to ends = record {
  before = take k order;
  after = drop k order;
  whole = sym (take-append-drop k order);
  rest = sym (take-append-drop k order);
  place = omega (arith, length-take k order);
  ends = ends;
}

cut_between-eq-ok :
    (order : List Uuid) (i j : ℕ) {c : Cut}
    → cut_between order i j ≡ ok c
    → (i ≤ j)
      × (record {
        working = take i order ++ drop (j + 1) order;
        replaced = slice i (j + 1) order;
        insert_pos = i;
      }
          ≡ c)
cut_between-eq-ok order i j h = (ground arith, ground arith)

cut_at-eq-ok :
    (order ids : List Uuid) (k : ℕ) {c : Cut}
    → cut_at order ids k ≡ ok c
    → record { working = order; replaced = []; insert_pos = k } ≡ c
cut_at-eq-ok order ids k h = ground arith

-- Where the switch of a replacement succeeds, the order is a part before, the ids to replace and a
-- part after; the working order is the two outer parts, the insertion goes between them, the
-- replaced ids begin and end at the two ids of the request, and where it gives one end alone nothing
-- is replaced and the insertion is next to that id.
pub cut-Splices :
    (from to : Option Uuid) (ids order : List Uuid) {c : Cut}
    → cut from to ids order ≡ ok c
    → Splices from to order c
unfolding cut
cut-Splices (some f) (some t) ids order h =
    let (i, e, h₁) = bind-eq-ok (index_of (index_map order) f) _ h in
    let (j, g, h₂) = bind-eq-ok (index_of (index_map order) t) _ h₁ in
    let (le, same) = cut_between-eq-ok order i j h₂ in
    subst (Splices (some f) (some t) order) same
      (between f t order i j le (index_of-eq-ok order f e) (index_of-eq-ok order t g))
cut-Splices (some f) none ids order h =
    let (i, e, h₁) = bind-eq-ok (index_of (index_map order) f) _ h in
    let found = index_of-eq-ok order f e in
    let next : suc i ≡ i + 1 = omega arith in
    subst (Splices (some f) none order) (cut_at-eq-ok order ids (i + 1) h₁) (
      at_place order (i + 1) (omega (arith, get_elem?-lt order i found)) (some f) none
        (refl, subst (λ k. last_of (take k order) ≡ some f) next (last_of-take order i found)))
cut-Splices none (some t) ids order h =
    let (j, e, h₁) = bind-eq-ok (index_of (index_map order) t) _ h in
    let found = index_of-eq-ok order t e in
    subst (Splices none (some t) order) (cut_at-eq-ok order ids j h₁) (
      at_place order j (omega (arith, get_elem?-lt order j found)) none (some t)
        (refl, first_of-drop order j ∙ found))
cut-Splices none none ids order h =
    subst (Splices none none order) (ground arith)
      (at_place order 0 (omega arith) none none (refl, refl))
