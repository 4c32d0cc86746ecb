-- ===== src/Store/Cut/Presence.antt =====
-- The map of presence that ensureMessagesExist of internal/state/range_ops.go fills: what its three
-- loops collect, mark and check.
use agent_state.Common.{
  ◌≡◌, sym, subst, ◌⊎◌, inl, inr, refl, Bool, Bool-cases, true, false, ◌==◌, ==_iff, is_some,
  value_or, List, [], ◌∷◌, ◌++◌, All, arith, if◌then◌else◌,
}
use agent_state.Errors.{Uuid, ok}
use agent_state.Database.Among.{Among}
use agent_state.Store.Cut.{IdMap, assign, empty_map, collect_presence, mark_present, check_presence}
use agent_state.Store.Names.{Among-append_left, Among-append_right}

-- The keys of the map so far are collected.
abbrev pub Collected : IdMap Bool → List Uuid → Type 0
Collected presence unique = (x : Uuid) → is_some (presence x) ≡ true → Among x unique

abbrev pub Unmarked : IdMap Bool → Type 0
Unmarked presence = (x : Uuid) → value_or (presence x) false ≡ false

assign-Collected :
    (x : Uuid) (presence : IdMap Bool) (unique : List Uuid)
    → Collected presence unique
    → Collected
        (assign presence x false)
        (if is_some (presence x) then unique else unique ++ x ∷ [])
assign-Collected x presence unique h y e = elim (Bool-cases (x == y)) [
  | inl same ↦
      let is_x : y ≡ x = sym ((==_iff x y).0 same) in
      elim (Bool-cases (is_some (presence x))) [
        | inl seen ↦ rw seen (subst (λ z. Among z unique) (sym is_x) (h x seen))
        | inr new ↦ rw new (Among-append_right y unique (x ∷ []) (inl is_x))
      ]
  | inr other ↦
      let before : is_some (presence y) ≡ true = rw other at e in
      elim (Bool-cases (is_some (presence x))) [
        | inl seen ↦ rw seen (h y before)
        | inr new ↦ rw new (Among-append_left y unique (x ∷ []) (h y before))
      ]
]

-- The first loop collects every id, and marks none.
pub collect_presence-Collected :
    (xs unique : List Uuid) (presence : IdMap Bool)
    → Collected presence unique
    → Collected (collect_presence xs unique presence).1 (collect_presence xs unique presence).0
unfolding collect_presence
collect_presence-Collected [] unique presence h = h
collect_presence-Collected (x ∷ xs) unique presence h =
    collect_presence-Collected xs _ (assign presence x false) (assign-Collected x presence unique h)

collect_presence-keeps :
    (xs unique : List Uuid) (presence : IdMap Bool) (y : Uuid)
    → is_some (presence y) ≡ true
    → is_some ((collect_presence xs unique presence).1 y) ≡ true
unfolding collect_presence
collect_presence-keeps [] unique presence y h = h
collect_presence-keeps (x ∷ xs) unique presence y h =
    collect_presence-keeps xs _ (assign presence x false) y (ground arith)

pub collect_presence-All :
    (xs unique : List Uuid) (presence : IdMap Bool)
    → All (λ x. is_some ((collect_presence xs unique presence).1 x) ≡ true) xs
unfolding collect_presence
collect_presence-All [] unique presence = tt
collect_presence-All (x ∷ xs) unique presence = (
  collect_presence-keeps xs _ (assign presence x false) x (ground (arith, (==_iff x x).1 refl)),
  collect_presence-All xs _ (assign presence x false),
)

pub collect_presence-Unmarked :
    (xs unique : List Uuid) (presence : IdMap Bool)
    → Unmarked presence
    → Unmarked (collect_presence xs unique presence).1
unfolding collect_presence
collect_presence-Unmarked [] unique presence h = h
collect_presence-Unmarked (x ∷ xs) unique presence h =
    collect_presence-Unmarked xs _ (assign presence x false) (λ y. ground (arith, h y))

-- What is marked after the rows was marked before or is one of them.
pub mark_present-eq-true :
    (rows : List Uuid) (presence : IdMap Bool) (x : Uuid)
    → value_or (mark_present rows presence x) false ≡ true
    → (value_or (presence x) false ≡ true) ⊎ Among x rows
unfolding mark_present
mark_present-eq-true [] presence x h = inl h
mark_present-eq-true (r ∷ rs) presence x h =
    elim (mark_present-eq-true rs (assign presence r true) x h) [
      | inr m ↦ inr (inr m)
      | inl marked ↦ elim (Bool-cases (r == x)) [
        | inl same ↦ inr (inl (sym ((==_iff r x).0 same)))
        | inr other ↦ inl (rw other at marked)
      ]
    ]

pub check_presence-eq-ok :
    (keys : List Uuid) (presence : IdMap Bool)
    → check_presence keys presence ≡ ok tt
    → All (λ k. value_or (presence k) false ≡ true) keys
unfolding check_presence
check_presence-eq-ok [] presence h = tt
check_presence-eq-ok (k ∷ ks) presence h =
    (ground arith, check_presence-eq-ok ks presence (ground arith))

pub empty_map-Collected : Collected empty_map []
empty_map-Collected x e = ground arith
