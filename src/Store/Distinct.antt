-- ===== src/Store/Distinct.antt =====
-- Lists of ids in which none stands twice.
use agent_state.Common.{◌≡◌, refl, false, List, [], ◌∷◌, ◌++◌, All, arith}
use agent_state.Errors.{Uuid}
use agent_state.Database.Statements.{contains}

abbrev pub IsDistinct : List Uuid → Type 0
IsDistinct [] = Unit
IsDistinct (x ∷ xs) = (contains x xs ≡ false) × IsDistinct xs

-- No id of the list stands in another.
abbrev pub Avoids : List Uuid → List Uuid → Type 0
Avoids ys xs = All (λ x. contains x ys ≡ false) xs

contains-append_left :
    (x : Uuid) (xs ys : List Uuid) → contains x (xs ++ ys) ≡ false → contains x xs ≡ false
contains-append_left x [] ys h = refl
contains-append_left x (y ∷ xs) ys h = ground (arith, contains-append_left x xs ys)

contains-append_right :
    (x : Uuid) (xs ys : List Uuid) → contains x (xs ++ ys) ≡ false → contains x ys ≡ false
contains-append_right x [] ys h = h
contains-append_right x (y ∷ xs) ys h = ground (arith, contains-append_right x xs ys)

avoids_cons :
    (m : Uuid) (ms xs : List Uuid) → contains m xs ≡ false → Avoids ms xs → Avoids (m ∷ ms) xs
avoids_cons m ms [] h k = tt
avoids_cons m ms (x ∷ xs) h k = (ground arith, avoids_cons m ms xs (ground arith) k.1)

avoids_nil : (xs : List Uuid) → Avoids [] xs
avoids_nil [] = tt
avoids_nil (x ∷ xs) = (refl, avoids_nil xs)

behind : (mid after : List Uuid) → IsDistinct (mid ++ after) → Avoids mid after
behind [] after h = avoids_nil after
behind (m ∷ mid) after h =
    avoids_cons m mid after (contains-append_right m mid after h.0) (behind mid after h.1)

-- What stands around the middle of a list without duplicates does not stand in it.
pub around-Avoids :
    (before mid after : List Uuid)
    → IsDistinct (before ++ (mid ++ after))
    → Avoids mid (before ++ after)
around-Avoids [] mid after h = behind mid after h
around-Avoids (b ∷ before) mid after h = (
  contains-append_left b mid after (contains-append_right b before (mid ++ after) h.0),
  around-Avoids before mid after h.1,
)
