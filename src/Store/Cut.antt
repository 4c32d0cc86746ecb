-- ===== src/Store/Cut.antt =====
-- internal/state/range_ops.go, the parts that compute on ids alone: index maps, the range cut out of
-- an order, the insertion, and the tests for presence and for duplicates.
pub mod Index
pub mod Splice
pub mod Ends
pub mod Presence
use agent_state.Common.{
  ℕ, suc, ◌+◌, ◌-◌, Bool, true, false, Option, none, some, List, [], ◌∷◌, ◌++◌, length, take, drop,
  ◌==◌, ltb, is_some, value_or, if◌then◌else◌,
}
use agent_state.Errors.{
  Uuid, Result, ok, err, sentinel, with_id, invalid_range_spec, message_not_found,
  duplicate_message, ◌>>=◌,
}

-- A Go map keyed by ids, and `m[k] = v`.
abbrev pub IdMap {ℓ} : Type ℓ → Type ℓ
IdMap V = Uuid → Option V

abbrev pub empty_map {ℓ} : {V : Type ℓ} → IdMap V
empty_map k = none

abbrev pub assign {ℓ} : {V : Type ℓ} → IdMap V → Uuid → V → IdMap V
assign m k v j = if k == j then some v else m j

-- `for idx, id := range order { indexMap[id] = idx }`, from the index `i` on
unfoldable pub index_from : ℕ → List Uuid → IdMap ℕ → IdMap ℕ
index_from i [] m = m
index_from i (x ∷ xs) m = index_from (suc i) xs (assign m x i)

abbrev pub index_map : List Uuid → IdMap ℕ
index_map order = index_from 0 order empty_map

-- `idx, ok := indexMap[id]; if !ok { return ErrMessageNotFound }`
abbrev pub index_of : IdMap ℕ → Uuid → Result ℕ
index_of m id = elim (m id) [ none ↦ err (sentinel message_not_found) | some i ↦ ok i ]

-- `xs[lo:hi]`
abbrev pub slice {ℓ} : {A : Type ℓ} → ℕ → ℕ → List A → List A
slice lo hi xs = take (hi - lo) (drop lo xs)

-- The variables `working`, `replaced` and `insertPos` after the switch.
pub record Cut : Type 0 where
  pub working : List Uuid
  pub replaced : List Uuid
  pub insert_pos : ℕ

abbrev pub cut_between : List Uuid → ℕ → ℕ → Result Cut
cut_between order from to =
    if ltb to from
    then err (sentinel invalid_range_spec)
    else ok (record {
      working = take from order ++ drop (to + 1) order;
      replaced = slice from (to + 1) order;
      insert_pos = from;
    })

abbrev pub cut_at : List Uuid → List Uuid → ℕ → Result Cut
cut_at order insert_ids pos =
    if length insert_ids == 0
    then err (sentinel invalid_range_spec)
    else ok (record { working = order; replaced = []; insert_pos = pos })

-- The switch of ReplaceConversationMessagesRange. Its last case does not arise: both ends absent
-- are refused before.
unfoldable pub cut : Option Uuid → Option Uuid → List Uuid → List Uuid → Result Cut
unfolding index_from
cut (some from) (some to) insert_ids order = do
  i ← index_of (index_map order) from
  j ← index_of (index_map order) to
  cut_between order i j
cut (some from) none insert_ids order = do
  i ← index_of (index_map order) from
  cut_at order insert_ids (i + 1)
cut none (some to) insert_ids order = do
  j ← index_of (index_map order) to
  cut_at order insert_ids j
cut none none insert_ids order = ok (record { working = order; replaced = []; insert_pos = 0 })

-- `working = append(working[:insertPos], append(idsCopy, working[insertPos:]...)...)`
abbrev pub insert_at : ℕ → List Uuid → List Uuid → List Uuid
insert_at pos ids working =
    let p = if ltb (length working) pos then length working else pos in
    take p working ++ (ids ++ drop p working)

-- The first loop of ensureMessagesExist: the distinct ids, each marked absent.
unfoldable pub collect_presence : List Uuid → List Uuid → IdMap Bool → List Uuid × IdMap Bool
collect_presence [] unique presence = (unique, presence)
collect_presence (x ∷ xs) unique presence =
    collect_presence xs (if is_some (presence x) then unique else unique ++ x ∷ [])
      (assign presence x false)

unfoldable pub mark_present : List Uuid → IdMap Bool → IdMap Bool
mark_present [] presence = presence
mark_present (x ∷ xs) presence = mark_present xs (assign presence x true)

-- The last loop, over the keys in the order that the runtime chooses.
unfoldable pub check_presence : List Uuid → IdMap Bool → Result (Unit {0})
check_presence [] presence = ok tt
check_presence (x ∷ xs) presence =
    let rest = check_presence xs presence in
    if value_or (presence x) false then rest else err (with_id (sentinel message_not_found) x)

unfoldable pub ensure_unique_from : List Uuid → IdMap (Unit {0}) → Result (Unit {0})
ensure_unique_from [] seen = ok tt
ensure_unique_from (x ∷ xs) seen =
    let rest = ensure_unique_from xs (assign seen x tt) in
    if is_some (seen x) then err (sentinel duplicate_message) else rest

-- `ensureUnique`
unfoldable pub ensure_unique : List Uuid → Result (Unit {0})
unfolding ensure_unique_from
ensure_unique ids = ensure_unique_from ids empty_map

-- An end of the range to delete: the default where the request leaves it open.
abbrev pub end_of : IdMap ℕ → ℕ → Option Uuid → Result ℕ
end_of m default none = ok default
end_of m default (some id) = index_of m id

-- `fromIdx` and `toIdx` of DeleteConversationMessagesRange, after its tests.
unfoldable pub range_ends : Option Uuid → Option Uuid → List Uuid → Result (ℕ × ℕ)
unfolding index_from
range_ends from to [] = err (sentinel invalid_range_spec)
range_ends from to (x ∷ xs) = do
  i ← end_of (index_map (x ∷ xs)) 0 from
  j ← end_of (index_map (x ∷ xs)) (length xs) to
  if ltb j i then err (sentinel invalid_range_spec) else ok (i, j)
