-- ===== src/Store/Reads.antt =====
-- The parts of internal/state/range_ops.go that only read leave the tables alone.
use agent_state.Common.{
  ◌≡◌, refl, sym, ap, ◌∙◌, true, false, Option, List, [], ◌∷◌, ◌++◌, arith, is_some, ==_iff,
}
use agent_state.Errors.{Uuid, Result, ok}
use agent_state.Database.{World, Driver}
use agent_state.Database.Outcome.{Reads, Reads-bind, Reads-lift, >>=-eq-ok, pair_eq}
use agent_state.Database.Statements.{select_order, contains}
use agent_state.Store.{ConversationMetadata, load_conversation_metadata_for_update}
use agent_state.Store.Cut.{
  Cut, insert_at, ensure_unique, ensure_unique_from, IdMap, assign, empty_map, check_presence,
  mark_present, collect_presence,
}
use agent_state.Store.Cut.Splice.{Splices, insert_at-splice}
use agent_state.Store.Distinct.{IsDistinct}
use agent_state.Store.Range.{
  fetch_conversation_order, ensure_messages_exist, insert_range, scan_ids, range_keys,
}

module _ (d : Driver) (id : Uuid) where
  pub load-eq-ok :
      (w : World) {m : ConversationMetadata} {w' : World}
      → load_conversation_metadata_for_update d id w ≡ (ok m, w')
      → w'.tables ≡ w.tables
  unfolding load_conversation_metadata_for_update
  load-eq-ok w h = ground arith

  pub fetch-eq-ok :
      (w : World) {order : List Uuid} {w' : World}
      → fetch_conversation_order d id w ≡ (ok order, w')
      → (order ≡ select_order id w.tables) × (w'.tables ≡ w.tables)
  unfolding fetch_conversation_order
  fetch-eq-ok w h = (ground arith, ground arith)

  scan_ids-Reads : (unique : List Uuid) → Reads (scan_ids d id unique)
  scan_ids-Reads unique = record { at = λ w. ground arith }

  pub ensure_messages_exist-Reads : (ids : List Uuid) → Reads (ensure_messages_exist d id ids)
  unfolding ensure_messages_exist
  ensure_messages_exist-Reads [] = record { at = λ w. refl }
  ensure_messages_exist-Reads (x ∷ xs) =
      let found = collect_presence (x ∷ xs) [] empty_map in
      Reads-bind (scan_ids d id found.0) _ (scan_ids-Reads found.0) (λ rows.
        Reads-bind (range_keys d found.0) _ (record { at = λ w. refl })
          (λ keys. Reads-lift (check_presence keys (mark_present rows found.1))))

  -- The order that is about to be written holds the ids at the place of what was cut out.
  pub insert_range-eq-ok :
      {from to : Option Uuid} {order : List Uuid} (ids : List Uuid) (c : Cut)
      → (s : Splices from to order c) → (w : World) {working : List Uuid} {w' : World}
      → insert_range d id ids c w ≡ (ok working, w')
      → (working ≡ s.before ++ (ids ++ s.after)) × (w'.tables ≡ w.tables)
  insert_range-eq-ok [] c s w {working} h =
      let p = pair_eq h in
      let same : working ≡ c.working = ground arith in
      (same ∙ s.rest, ap (λ (v : World). v.tables) (sym p.1))
  insert_range-eq-ok (x ∷ xs) c s w {working} h =
      let (u, w₁, p, h₁) = >>=-eq-ok (ensure_messages_exist d id (x ∷ xs)) _ w h in
      let q = pair_eq h₁ in
      let same : working ≡ insert_at c.insert_pos (x ∷ xs) c.working = ground arith in
      let placed : insert_at c.insert_pos (x ∷ xs) c.working ≡ s.before ++ (x ∷ xs ++ s.after) =
        rw (s.place, s.rest) (insert_at-splice (x ∷ xs) s.before s.after) in
      (
        same ∙ placed,
        ap (λ (v : World). v.tables) (sym q.1)
            ∙ (ap (λ (v : Result (Unit {0}) × World). v.1.tables) (sym p)
                ∙ (ensure_messages_exist-Reads (x ∷ xs)).at w),
      )

not_seen_from :
    (x : Uuid) (xs : List Uuid) (seen : IdMap (Unit {0}))
    → is_some (seen x) ≡ true
    → ensure_unique_from xs seen ≡ ok tt
    → contains x xs ≡ false
unfolding ensure_unique_from
not_seen_from x [] seen h e = refl
not_seen_from x (y ∷ ys) seen h e =
    ground (arith, not_seen_from x ys (assign seen y tt), ==_iff x y)

ensure_unique_from-eq-ok :
    (xs : List Uuid) (seen : IdMap (Unit {0})) → ensure_unique_from xs seen ≡ ok tt → IsDistinct xs
unfolding ensure_unique_from
ensure_unique_from-eq-ok [] seen e = tt
ensure_unique_from-eq-ok (x ∷ xs) seen e =
    let rest : ensure_unique_from xs (assign seen x tt) ≡ ok tt = ground arith in
    (
      not_seen_from x xs (assign seen x tt) (ground arith) rest,
      ensure_unique_from-eq-ok xs (assign seen x tt) rest,
    )

-- `ensureUnique` passes only a list in which no id stands twice.
pub ensure_unique-eq-ok : (xs : List Uuid) → ensure_unique xs ≡ ok tt → IsDistinct xs
unfolding ensure_unique
ensure_unique-eq-ok xs e = ensure_unique_from-eq-ok xs empty_map e
