-- ===== src/Store/Cut/Ends.antt =====
-- The ends of a range to delete in internal/state/range_ops.go.
use agent_state.Common.{
  ℕ, zero, suc, ◌+◌, ◌≤◌, ◌≡◌, refl, Option, none, some, List, [], ◌∷◌, ◌++◌, length, take, drop,
  arith,
}
use agent_state.Errors.{Uuid, ok, bind-eq-ok}
use agent_state.Store.Cut.{slice, index_map, end_of, range_ends}
use agent_state.Store.Cut.Index.{first_of, last_of, index_of-eq-ok}
use agent_state.Store.Cut.Splice.{slice_first, slice_last, three_parts}

-- Where a deleted range begins and ends: at the id given, or at the end of the order.
abbrev pub BeginsAt : Option Uuid → List Uuid → List Uuid → Type 0
BeginsAt none before mid = before ≡ []
BeginsAt (some f) before mid = first_of mid ≡ some f

abbrev pub StopsAt : Option Uuid → List Uuid → List Uuid → Type 0
StopsAt none mid after = after ≡ []
StopsAt (some t) mid after = last_of mid ≡ some t

begins :
    (order : List Uuid) (i j : ℕ) (from : Option Uuid)
    → i ≤ j
    → end_of (index_map order) 0 from ≡ ok i
    → BeginsAt from (take i order) (slice i (j + 1) order)
begins order i j none le h = let e : i ≡ 0 = ground arith in rw e
begins order i j (some f) le h = slice_first order i j le (index_of-eq-ok order f h)

drop-eq_nil : (xs : List Uuid) (n : ℕ) → length xs ≤ n → drop n xs ≡ []
drop-eq_nil [] zero h = refl
drop-eq_nil [] (suc n) h = refl
drop-eq_nil (x ∷ xs) zero h = absurd (omega arith)
drop-eq_nil (x ∷ xs) (suc n) h = drop-eq_nil xs n (omega arith)

stops :
    (x : Uuid) (xs : List Uuid) (i j : ℕ) (to : Option Uuid)
    → i ≤ j
    → end_of (index_map (x ∷ xs)) (length xs) to ≡ ok j
    → StopsAt to (slice i (j + 1) (x ∷ xs)) (drop (j + 1) (x ∷ xs))
stops x xs i j none le h =
    let e : j ≡ length xs = ground arith in drop-eq_nil (x ∷ xs) (j + 1) (omega arith)
stops x xs i j (some t) le h = slice_last (x ∷ xs) i j le (index_of-eq-ok (x ∷ xs) t h)

-- The range that is deleted lies where the request says, between the rest of the order.
pub range_ends-parts :
    (from to : Option Uuid) (order : List Uuid) {i j : ℕ}
    → range_ends from to order ≡ ok (i, j)
    → (order ≡ take i order ++ (slice i (j + 1) order ++ drop (j + 1) order))
      × BeginsAt from (take i order) (slice i (j + 1) order)
      × StopsAt to (slice i (j + 1) order) (drop (j + 1) order)
unfolding range_ends
range_ends-parts from to [] h = ground arith
range_ends-parts from to (x ∷ xs) {i} {j} h =
    let order = x ∷ xs in
    let (i₁, e, h₁) = bind-eq-ok (end_of (index_map order) 0 from) _ h in
    let (j₁, g, h₂) = bind-eq-ok (end_of (index_map order) (length xs) to) _ h₁ in
    let p : (i₁ ≡ i) × (j₁ ≡ j) × (i₁ ≤ j₁) = ground arith in
    let le : i ≤ j = omega arith in
    (
      three_parts order i j le,
      begins order i j from le (rw (← p.0) e),
      stops x xs i j to le (rw (← p.1) g),
    )
