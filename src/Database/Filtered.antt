-- ===== src/Database/Filtered.antt =====
-- What a WHERE clause keeps of rows and of their order.
use agent_state.Common.{ℕ, ◌≡◌, refl, Bool, List, [], ◌∷◌, All, ◌&&◌, arith, Bool-cases, inl, inr}
use agent_state.Database.Query.{filter_by}
use agent_state.Database.Ordered.{IsAscending}

module _ {A : Type 0} where
  pub filter_by-and :
      (p q : A → Bool) (xs : List A) → filter_by (λ x. p x && q x) xs ≡ filter_by q (filter_by p xs)
  filter_by-and p q [] = refl
  filter_by-and p q (x ∷ xs) = ground (arith, filter_by-and p q xs)

  pub All-filter_by :
      (P : A → Type 0) (q : A → Bool) (xs : List A) → All P xs → All P (filter_by q xs)
  All-filter_by P q [] h = tt
  All-filter_by P q (x ∷ xs) h = elim (Bool-cases (q x)) [
    | inl kept ↦ rw kept (h.0, All-filter_by P q xs h.1)
    | inr dropped ↦ rw dropped (All-filter_by P q xs h.1)
  ]

  pub filter_by-IsAscending :
      (key : A → ℕ) (q : A → Bool) (xs : List A)
      → IsAscending key xs
      → IsAscending key (filter_by q xs)
  filter_by-IsAscending key q [] h = tt
  filter_by-IsAscending key q (x ∷ xs) h = elim (Bool-cases (q x)) [
    | inl kept ↦ rw kept (All-filter_by _ q xs h.0, filter_by-IsAscending key q xs h.1)
    | inr dropped ↦ rw dropped (filter_by-IsAscending key q xs h.1)
  ]
