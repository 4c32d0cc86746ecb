-- ===== src/Database/Among.antt =====
-- The rows of a table that a query returns, in whatever order it returns them.
use agent_state.Common.{
  ℕ, ◌≡◌, sym, subst, ◌⊎◌, inl, inr, Bool, true, Bool-cases, List, [], ◌∷◌, All,
}
use agent_state.Message.Row.{MessageRow}
use agent_state.Database.{Driver}
use agent_state.Database.Query.{filter_by}

-- The value stands in the list.
abbrev pub Among : {A : Type 0} → A → List A → Type 0
Among a [] = ⊥
Among a (x ∷ xs) = (a ≡ x) ⊎ Among a xs

module _ {A : Type 0} where
  pub All-Among : (P : A → Type 0) (xs : List A) {a : A} → All P xs → Among a xs → P a
  All-Among P [] h m = absurd m
  All-Among P (x ∷ xs) h (inl e) = subst P (sym e) h.0
  All-Among P (x ∷ xs) h (inr m) = All-Among P xs h.1 m

  pub filter_by-Among :
      (p : A → Bool) (xs : List A) {a : A} → Among a (filter_by p xs) → Among a xs × (p a ≡ true)
  filter_by-Among p [] m = absurd m
  filter_by-Among p (x ∷ xs) {a} m = elim (Bool-cases (p x)) [
    | inl kept ↦
        let place : (a ≡ x) ⊎ Among a (filter_by p xs) = rw kept at m in
        elim place [
          | inl e ↦ (inl e, subst (λ y. p y ≡ true) (sym e) kept)
          | inr rest ↦ let (in_xs, holds) = filter_by-Among p xs rest in (inr in_xs, holds)
        ]
    | inr dropped ↦
        let (in_xs, holds) = filter_by-Among p xs (rw dropped at m) in (inr in_xs, holds)
  ]

-- A query for messages returns rows of its result, whatever their order.
abbrev pub ScansRows : Driver → Type 0
ScansRows d = (n : ℕ) (rows : List MessageRow) → All (λ r. Among r rows) (d.scan_rows n rows)
