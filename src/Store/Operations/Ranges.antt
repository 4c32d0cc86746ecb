-- ===== src/Store/Operations/Ranges.antt =====
-- The transactions of internal/state/range_ops.go keep what their statements keep.
use agent_state.Common.{ℕ, ◌+◌, refl, List, [], ◌∷◌, length, take, drop, ◌++◌, arith}
use agent_state.Errors.{Uuid, ok}
use agent_state.Message.{Time}
use agent_state.Database.{Tables, Driver}
use agent_state.Database.Keeps.{Keeps, Keeps-lift, Keeps-wrapped, Keeps-query}
use agent_state.Database.Monad.{lift, modify, wrapped}
use agent_state.Database.Statements.{update_counts, insert_item, delete_items, delete_messages}
use agent_state.Store.{load_conversation_metadata_for_update}
use agent_state.Store.Cut.{
  Cut, cut, slice, range_ends, ensure_unique, collect_presence, mark_present, check_presence,
  empty_map,
}
use agent_state.Store.Range.{
  ReplaceRangeSpec, DeleteRangeSpec, replace_range_tx, delete_range_tx, delete_rows,
  fetch_conversation_order, ensure_messages_exist, insert_range, insert_items, clear_items,
  rewrite_conversation_order, scan_ids, range_keys, store_count,
}
use agent_state.Store.Operations.Steps.{KeptByWrites, bind, step, reading, changed}

module _ (P : Tables → ℕ → Type 0) (k : KeptByWrites P) (d : Driver) (id : Uuid) where
  load-Keeps : Keeps P (load_conversation_metadata_for_update d id)
  unfolding load_conversation_metadata_for_update
  load-Keeps = reading P d _ (λ w. ground arith)

  fetch-Keeps : Keeps P (fetch_conversation_order d id)
  unfolding fetch_conversation_order
  fetch-Keeps = Keeps-wrapped P _ _ (Keeps-query P d _)

  scan_ids-Keeps : (unique : List Uuid) → Keeps P (scan_ids d id unique)
  scan_ids-Keeps unique = reading P d _ (λ w. ground arith)

  ensure_messages_exist-Keeps : (ids : List Uuid) → Keeps P (ensure_messages_exist d id ids)
  unfolding ensure_messages_exist
  ensure_messages_exist-Keeps [] = Keeps-lift P (ok tt)
  ensure_messages_exist-Keeps (x ∷ xs) =
      let found = collect_presence (x ∷ xs) [] empty_map in
      bind P (scan_ids d id found.0) _ (scan_ids-Keeps found.0) λ rows.
        bind P (range_keys d found.0)
          (λ keys. lift (check_presence keys (mark_present rows found.1)))
          (reading P d (range_keys d found.0) (λ w. (refl, refl))) λ keys. Keeps-lift P _

  insert_range-Keeps : (ids : List Uuid) (c : Cut) → Keeps P (insert_range d id ids c)
  insert_range-Keeps [] c = Keeps-lift P (ok c.working)
  insert_range-Keeps (x ∷ xs) c =
      bind P (ensure_messages_exist d id (x ∷ xs)) _ (ensure_messages_exist-Keeps (x ∷ xs))
        λ u. Keeps-lift P _

  insert_items-Keeps : (ids : List Uuid) → Keeps P (insert_items d id ids)
  unfolding insert_items
  insert_items-Keeps [] = Keeps-lift P (ok tt)
  insert_items-Keeps (x ∷ xs) =
      bind P (wrapped "insert conversation item" (insert_item d id x)) _
        (Keeps-wrapped P _ _ (k.placed d id x)) λ u. insert_items-Keeps xs

  rewrite-Keeps : (order : List Uuid) → Keeps P (rewrite_conversation_order d id order)
  unfolding rewrite_conversation_order
  rewrite-Keeps order =
      bind P (clear_items d id) _ (step P d _ _ (changed P (delete_items id) (k.cleared id)))
        λ u. insert_items-Keeps order

  store_count-Keeps : (count : ℕ) (now : Time) → Keeps P (store_count d id count now)
  store_count-Keeps count now =
      bind P (wrapped "update conversation" (modify d (update_counts (λ _. count) id now))) _
        (step P d _ _ (k.counted (λ _. count) id now)) λ c. Keeps-lift P _

  delete_rows-Keeps : (ids : List Uuid) → Keeps P (delete_rows d id ids)
  delete_rows-Keeps [] = Keeps-lift P (ok tt)
  delete_rows-Keeps (x ∷ xs) =
      step P d _ _ (changed P (delete_messages id (x ∷ xs)) (k.deleted id (x ∷ xs)))

  pub replace_range_tx-Keeps :
      (spec : ReplaceRangeSpec) (now : Time) → Keeps P (replace_range_tx d id spec now)
  unfolding replace_range_tx
  replace_range_tx-Keeps spec now =
      bind P (load_conversation_metadata_for_update d id) _ load-Keeps λ m.
        bind P (fetch_conversation_order d id) _ fetch-Keeps λ order.
          bind P (lift (cut spec.from_id spec.to_id spec.insert_ids order)) _ (Keeps-lift P _) λ c.
            bind P (insert_range d id spec.insert_ids c) _ (insert_range-Keeps spec.insert_ids c)
              λ working. bind P (lift (ensure_unique working)) _ (Keeps-lift P _) λ u.
                bind P (rewrite_conversation_order d id working) _ (rewrite-Keeps working) λ v.
                  bind P (store_count d id (length working) now) _
                    (store_count-Keeps (length working) now) λ r. Keeps-lift P _

  pub delete_range_tx-Keeps :
      (spec : DeleteRangeSpec) (now : Time) → Keeps P (delete_range_tx d id spec now)
  unfolding delete_range_tx
  delete_range_tx-Keeps spec now =
      bind P (load_conversation_metadata_for_update d id) _ load-Keeps λ m.
        bind P (fetch_conversation_order d id) _ fetch-Keeps λ order.
          bind P (lift (range_ends spec.from_id spec.to_id order)) _ (Keeps-lift P _) λ ends.
            let remaining = take ends.0 order ++ drop (ends.1 + 1) order in
            let deleted = slice ends.0 (ends.1 + 1) order in
            bind P (rewrite_conversation_order d id remaining) _ (rewrite-Keeps remaining) λ u.
              bind P (delete_rows d id deleted) _ (delete_rows-Keeps deleted) λ v.
                bind P (store_count d id (length remaining) now) _
                  (store_count-Keeps (length remaining) now) λ r. Keeps-lift P _
