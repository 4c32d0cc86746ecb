-- ===== src/Store/Cut/Index.antt =====
-- The index map of internal/state/range_ops.go finds an id at a place where it stands.
use agent_state.Common.{
  take-append-drop, Bool-cases, ==_iff, ℕ, zero, suc, ◌+◌, ◌<◌, ◌≡◌, refl, ap, ◌∙◌, ◌⊎◌, inl, inr,
  true, false, Option, none, some, List, [], ◌∷◌, ◌++◌, length, take, drop, arith, ◌==◌,
  Option-cases,
}
use agent_state.Errors.{Uuid, ok}
use agent_state.Store.Cut.{IdMap, empty_map, assign, index_from, index_map, index_of}

module _ {ℓ} {A : Type ℓ} where
  abbrev pub get_elem? : List A → ℕ → Option A
  get_elem? [] i = none
  get_elem? (x ∷ xs) zero = some x
  get_elem? (x ∷ xs) (suc i) = get_elem? xs i

  abbrev pub first_of : List A → Option A
  first_of [] = none
  first_of (x ∷ xs) = some x

  abbrev pub last_of : List A → Option A
  last_of [] = none
  last_of (x ∷ []) = some x
  last_of (x ∷ y ∷ ys) = last_of (y ∷ ys)

  pub first_of-drop : (xs : List A) (i : ℕ) → first_of (drop i xs) ≡ get_elem? xs i
  first_of-drop [] zero = refl
  first_of-drop [] (suc i) = refl
  first_of-drop (x ∷ xs) zero = refl
  first_of-drop (x ∷ xs) (suc i) = first_of-drop xs i

  pub first_of-take : (xs : List A) (n : ℕ) → first_of (take (suc n) xs) ≡ first_of xs
  first_of-take [] n = refl
  first_of-take (x ∷ xs) n = refl

  pub get_elem?-drop : (xs : List A) (i n : ℕ) → get_elem? (drop i xs) n ≡ get_elem? xs (i + n)
  get_elem?-drop [] zero n = refl
  get_elem?-drop [] (suc i) n = refl
  get_elem?-drop (x ∷ xs) zero n = ap (get_elem? (x ∷ xs)) (omega arith)
  get_elem?-drop (x ∷ xs) (suc i) n =
      get_elem?-drop xs i n
      ∙ ap (get_elem? (x ∷ xs)) {x = suc (i + n)} {y = suc i + n} (omega arith)

  pub last_of-take :
      (xs : List A) (n : ℕ) {a : A} → get_elem? xs n ≡ some a → last_of (take (suc n) xs) ≡ some a
  last_of-take [] n h = ground arith
  last_of-take (x ∷ xs) zero h = h
  last_of-take (x ∷ []) (suc n) h = ground arith
  last_of-take (x ∷ y ∷ ys) (suc n) h = last_of-take (y ∷ ys) n h

  pub get_elem?-lt : (xs : List A) (n : ℕ) {a : A} → get_elem? xs n ≡ some a → n < length xs
  get_elem?-lt [] n h = ground arith
  get_elem?-lt (x ∷ xs) zero h = omega arith
  get_elem?-lt (x ∷ xs) (suc n) h = omega (arith, get_elem?-lt xs n h)

  drop-drop : (xs : List A) (i n : ℕ) → drop (i + n) xs ≡ drop n (drop i xs)
  drop-drop xs zero n = ap (λ k. drop k xs) {x = zero + n} {y = n} (omega arith)
  drop-drop [] (suc i) zero = ap (λ k. drop {A = A} k []) {x = suc i + 0} {y = suc i} (omega arith)
  drop-drop [] (suc i) (suc n) =
      ap (λ k. drop {A = A} k []) {x = suc i + suc n} {y = suc (i + suc n)} (omega arith)
  drop-drop (x ∷ xs) (suc i) n =
      ap (λ k. drop k (x ∷ xs)) {x = suc i + n} {y = suc (i + n)} (omega arith) ∙ drop-drop xs i n

  -- A list around the slice from `i` to `j`.
  pub drop-split : (xs : List A) (i n : ℕ) → take n (drop i xs) ++ drop (i + n) xs ≡ drop i xs
  drop-split xs i n = rw (drop-drop xs i n) (take-append-drop n (drop i xs))

at_head :
    (i : ℕ) (x : Uuid) (m : IdMap ℕ) (k : Uuid) (xs : List Uuid) {j : ℕ}
    → assign m x i k ≡ some j
    → ((x == k) ≡ true) ⊎ ((x == k) ≡ false)
    → (m k ≡ some j) ⊎ ((n : ℕ) × (j ≡ i + n) × (get_elem? (x ∷ xs) n ≡ some k))
at_head i x m k xs e (inl here) = inr (0, ground arith, ap some ((==_iff x k).0 here))
at_head i x m k xs e (inr there) = inl (ground arith)

-- The entry of a key is one that was there before, or a place in the list where the key stands.
index_from-eq-some :
    (i : ℕ) (xs : List Uuid) (m : IdMap ℕ) (k : Uuid) {j : ℕ}
    → index_from i xs m k ≡ some j
    → (m k ≡ some j) ⊎ ((n : ℕ) × (j ≡ i + n) × (get_elem? xs n ≡ some k))
unfolding index_from
index_from-eq-some i [] m k h = inl h
index_from-eq-some i (x ∷ xs) m k h = elim (index_from-eq-some (suc i) xs (assign m x i) k h) [
  | inl e ↦ at_head i x m k xs e (Bool-cases (x == k))
  | inr (n, p, q) ↦ inr (suc n, omega arith, q)
]

-- An index that `indexMap` gives is one at which the id stands.
pub index_of-eq-ok :
    (xs : List Uuid) (k : Uuid) {j : ℕ} → index_of (index_map xs) k ≡ ok j → get_elem? xs j ≡ some k
index_of-eq-ok xs k {j} h = elim (Option-cases (index_map xs k)) [
  | inl missing ↦ ground arith
  | inr (i, e) ↦ elim (index_from-eq-some 0 xs empty_map k e) [
    | inl absent ↦ ground arith
    | inr (n, p, q) ↦ let same : j ≡ n = ground arith in rw same q
  ]
]
