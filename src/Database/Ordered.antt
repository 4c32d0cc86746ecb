-- ===== src/Database/Ordered.antt =====
-- ORDER BY over rows that are in order already, and WHERE over rows joined together.
use agent_state.Common.{ℕ, ◌<◌, ◌≡◌, refl, Bool, true, false, List, [], ◌∷◌, ◌++◌, All, arith}
use agent_state.Database.Query.{filter_by, order_by, insert_by}

module _ {A : Type 0} where
  -- Each element is related to all that follow it.
  abbrev pub Pairwise : (A → A → Type 0) → List A → Type 0
  Pairwise R [] = Unit
  Pairwise R (x ∷ xs) = All (R x) xs × Pairwise R xs

  -- The keys grow strictly along the list.
  abbrev pub IsAscending : (A → ℕ) → List A → Type 0
  IsAscending key = Pairwise (λ x y. key x < key y)

  pub insert_by-least :
      (key : A → ℕ) (x : A) (xs : List A)
      → All (λ y. key x < key y) xs
      → insert_by key x xs ≡ x ∷ xs
  unfolding order_by
  insert_by-least key x [] h = refl
  insert_by-least key x (y ∷ ys) h = ground arith

  pub order_by-eq_of_ascending :
      (key : A → ℕ) (xs : List A) → IsAscending key xs → order_by key xs ≡ xs
  unfolding order_by
  order_by-eq_of_ascending key [] h = refl
  order_by-eq_of_ascending key (x ∷ xs) h =
      rw (order_by-eq_of_ascending key xs h.1) (insert_by-least key x xs h.0)

  pub filter_by-append :
      (p : A → Bool) (xs ys : List A) → filter_by p (xs ++ ys) ≡ filter_by p xs ++ filter_by p ys
  filter_by-append p [] ys = refl
  filter_by-append p (x ∷ xs) ys = ground (arith, filter_by-append p xs ys)

  pub filter_by-All : (p : A → Bool) (xs : List A) → All (λ x. p x ≡ true) xs → filter_by p xs ≡ xs
  filter_by-All p [] h = refl
  filter_by-All p (x ∷ xs) h = ground (arith, filter_by-All p xs h.1)

  pub filter_by-none :
      (p : A → Bool) (xs : List A) → All (λ x. p x ≡ false) xs → filter_by p xs ≡ []
  filter_by-none p [] h = refl
  filter_by-none p (x ∷ xs) h = ground (arith, filter_by-none p xs h.1)

  -- What one test keeps, a test that follows from it keeps too.
  pub filter_by-filter_by :
      (p q : A → Bool)
      → ((x : A) → p x ≡ true → q x ≡ true)
      → (xs : List A) → filter_by p (filter_by q xs) ≡ filter_by p xs
  filter_by-filter_by p q h [] = refl
  filter_by-filter_by p q h (x ∷ xs) = ground (arith, h x, filter_by-filter_by p q h xs)

  pub filter_by-disjoint :
      (p q : A → Bool)
      → ((x : A) → q x ≡ true → p x ≡ false)
      → (xs : List A) → filter_by p (filter_by q xs) ≡ []
  filter_by-disjoint p q h [] = refl
  filter_by-disjoint p q h (x ∷ xs) = ground (arith, h x, filter_by-disjoint p q h xs)

  -- A row behind all others stays behind them.
  insert_by-snoc :
      (key : A → ℕ) (y x : A) (zs : List A)
      → key y < key x
      → insert_by key y (zs ++ x ∷ []) ≡ insert_by key y zs ++ x ∷ []
  unfolding order_by
  insert_by-snoc key y x [] h = ground arith
  insert_by-snoc key y x (z ∷ zs) h = ground (arith, insert_by-snoc key y x zs h)

  pub order_by-snoc :
      (key : A → ℕ) (xs : List A) (x : A)
      → All (λ y. key y < key x) xs
      → order_by key (xs ++ x ∷ []) ≡ order_by key xs ++ x ∷ []
  unfolding order_by
  order_by-snoc key [] x h = refl
  order_by-snoc key (y ∷ ys) x h =
      rw (order_by-snoc key ys x h.1) (insert_by-snoc key y x (order_by key ys) h.0)
