-- ===== src/Store/Unique.antt =====
-- `ensureUnique` of internal/state/range_ops.go against the description of a list in which no id
-- stands twice.
use agent_state.Common.{
  ◌≡◌, refl, sym, ◌∙◌, ◌⊎◌, inl, inr, Bool-cases, false, List, [], ◌∷◌, All, is_some, arith,
}
use agent_state.Errors.{Uuid, ok, err, sentinel, duplicate_message}
use agent_state.Database.Statements.{contains}
use agent_state.Store.Cut.{ensure_unique, ensure_unique_from, IdMap, assign, empty_map}
use agent_state.Store.Distinct.{IsDistinct}
use agent_state.Store.Reads.{ensure_unique-eq-ok}

abbrev IsUnseen : IdMap (Unit {0}) → List Uuid → Type 0
IsUnseen seen xs = All (λ x. is_some (seen x) ≡ false) xs

IsUnseen-assign :
    (x : Uuid) (seen : IdMap (Unit {0})) (xs : List Uuid)
    → contains x xs ≡ false
    → IsUnseen seen xs
    → IsUnseen (assign seen x tt) xs
IsUnseen-assign x seen [] h u = tt
IsUnseen-assign x seen (y ∷ ys) h u = (ground arith, IsUnseen-assign x seen ys (ground arith) u.1)

ensure_unique_from-distinct :
    (xs : List Uuid) (seen : IdMap (Unit {0}))
    → IsDistinct xs
    → IsUnseen seen xs
    → ensure_unique_from xs seen ≡ ok tt
unfolding ensure_unique_from
ensure_unique_from-distinct [] seen h u = refl
ensure_unique_from-distinct (x ∷ xs) seen h u =
    rw u.0
      (ensure_unique_from-distinct xs (assign seen x tt) h.1 (IsUnseen-assign x seen xs h.0 u.1))

IsUnseen-empty : (xs : List Uuid) → IsUnseen empty_map xs
IsUnseen-empty [] = tt
IsUnseen-empty (x ∷ xs) = (refl, IsUnseen-empty xs)

ensure_unique_from-cases :
    (xs : List Uuid) (seen : IdMap (Unit {0}))
    → (ensure_unique_from xs seen ≡ ok tt)
      ⊎ (ensure_unique_from xs seen ≡ err (sentinel duplicate_message))
unfolding ensure_unique_from
ensure_unique_from-cases [] seen = inl refl
ensure_unique_from-cases (x ∷ xs) seen = elim (Bool-cases (is_some (seen x))) [
  | inl again ↦ inr (rw again refl)
  | inr new ↦ rw new (ensure_unique_from-cases xs (assign seen x tt))
]

-- Either no id stands twice in the list and ensureUnique passes it, or one does and it is refused
-- with ErrDuplicateMessage.
pub ensure_unique-decides :
    (xs : List Uuid)
    → (IsDistinct xs × (ensure_unique xs ≡ ok tt))
      ⊎ ((¬ IsDistinct xs) × (ensure_unique xs ≡ err (sentinel duplicate_message)))
unfolding ensure_unique
ensure_unique-decides xs = elim (ensure_unique_from-cases xs empty_map) [
  | inl passed ↦ inl (ensure_unique-eq-ok xs passed, passed)
  | inr refused ↦ inr (
    λ distinct.
        let passed = ensure_unique_from-distinct xs empty_map distinct (IsUnseen-empty xs) in
        let clash : err (sentinel duplicate_message) ≡ ok tt = sym refused ∙ passed in ground arith,
    refused,
  )
]
