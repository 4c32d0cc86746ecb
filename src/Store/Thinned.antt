-- ===== src/Store/Thinned.antt =====
-- What a DELETE leaves of the rows of a table, said without its condition as code.
use agent_state.Common.{
  ◌≡◌, Bool, true, not, ◌==◌, ==_iff, Bool-cases, inl, inr, List, [], ◌∷◌, arith,
}
use agent_state.Errors.{Uuid}
use agent_state.Message.Row.{MessageRow}
use agent_state.Database.Among.{Among}
use agent_state.Database.Query.{filter_by}
use agent_state.Database.Statements.{contains, doomed}

-- The second list is the first one without the elements that have the property, in order.
pub data Thinned {A : Type 0} (P : A → Type 0) : List A → List A → Type 0 where
  none_left : Thinned P [] []
  kept : {x : A} {xs ys : List A} → ¬ P x → Thinned P xs ys → Thinned P (x ∷ xs) (x ∷ ys)
  gone : {x : A} {xs ys : List A} → P x → Thinned P xs ys → Thinned P (x ∷ xs) ys

filter_by-Thinned :
    {A : Type 0} (P : A → Type 0) (p : A → Bool)
    → ((x : A) → p x ≡ true → P x)
    → ((x : A) → P x → p x ≡ true)
    → (xs : List A) → Thinned P xs (filter_by (λ x. not (p x)) xs)
filter_by-Thinned P p sound complete [] = none_left
filter_by-Thinned P p sound complete (x ∷ xs) =
    let rest = filter_by-Thinned P p sound complete xs in
    elim (Bool-cases (p x)) [
      | inl chosen ↦ rw chosen (gone (sound x chosen) rest)
      | inr spared ↦ rw spared (kept (λ h. ground (arith, complete x h)) rest)
    ]

pub contains-Among : (x : Uuid) (xs : List Uuid) → contains x xs ≡ true → Among x xs
contains-Among x [] h = ground arith
contains-Among x (y ∷ ys) h = elim (Bool-cases (x == y)) [
  | inl same ↦ inl ((==_iff x y).0 same)
  | inr other ↦ inr (contains-Among x ys (ground arith))
]

pub Among-contains : (x : Uuid) (xs : List Uuid) → Among x xs → contains x xs ≡ true
Among-contains x [] h = absurd h
Among-contains x (y ∷ ys) (inl same) = ground (arith, (==_iff x y).1 same)
Among-contains x (y ∷ ys) (inr h) = ground (arith, Among-contains x ys h)

-- A message of the conversation with one of the ids.
abbrev pub MessageOf : Uuid → List Uuid → MessageRow → Type 0
MessageOf id ids m = (m.conversation_id ≡ id) × Among m.id ids

pub doomed-Thinned :
    (id : Uuid) (ids : List Uuid) (messages : List MessageRow)
    → Thinned (MessageOf id ids) messages (filter_by (λ m. not (doomed id ids m)) messages)
doomed-Thinned id ids =
    filter_by-Thinned (MessageOf id ids) (doomed id ids)
      (λ m h.
        ((==_iff m.conversation_id id).0 (ground arith), contains-Among m.id ids (ground arith)))
      (λ m h. ground (arith, (==_iff m.conversation_id id).1 h.0, Among-contains m.id ids h.1))
