-- ===== src/Store/Replaced.antt =====
-- What a replacement of a range in internal/state/range_ops.go does.
use agent_state.Common.{
  ◌≡◌, sym, refl, ap, ◌∙◌, subst, List, ◌++◌, length, arith, is_some, Bool-cases, inl, inr, not,
  ◌&&◌,
}
use mathlib.Core.Path.{subst₂}
use agent_state.Errors.{ok-injective, Uuid, ok}
use agent_state.Message.{Time}
use agent_state.Database.{Tables, World, Driver}
use agent_state.Database.Monad.{lift, tick, run_tx}
use agent_state.Database.Outcome.{>>=-eq-ok, lift-eq-ok, run_tx-eq-ok, pair_eq}
use agent_state.Database.Statements.{select_order}
use agent_state.Store.{ConversationMetadata, load_conversation_metadata_for_update}
use agent_state.Store.Cut.{Cut, cut, ensure_unique}
use agent_state.Store.Cut.Splice.{AtEnds, cut-Splices}
use agent_state.Store.Reads.{load-eq-ok, fetch-eq-ok, insert_range-eq-ok, ensure_unique-eq-ok}
use agent_state.Store.Distinct.{IsDistinct}
use agent_state.Store.Range.{
  ReplaceRangeSpec, ReplaceRangeResult, fetch_conversation_order, insert_range,
  rewrite_conversation_order, store_count, replace_range_tx, replace_conversation_messages_range,
}
use agent_state.Store.Written.{OrderWritten, store_count-OrderWritten, rewrite-Rewritten}

-- The range between `before` and `after` gave way to the ids of the request.
pub record Replaced (id : Uuid) (spec : ReplaceRangeSpec) (t : Tables) (r : ReplaceRangeResult)
    (t' : Tables) : Type 0 where
  pub before : List Uuid
  pub after : List Uuid
  pub was : select_order id t ≡ before ++ (r.replaced_message_ids ++ after)
  pub ends : AtEnds spec.from_id spec.to_id before r.replaced_message_ids after
  pub inserted : r.inserted_message_ids ≡ spec.insert_ids
  pub distinct : IsDistinct (before ++ (spec.insert_ids ++ after))
  pub written : OrderWritten id (before ++ (spec.insert_ids ++ after)) t.messages t r.metadata t'

module _ (d : Driver) (id : Uuid) (spec : ReplaceRangeSpec) where
  -- The parts of the transaction from the cut on, which works on the order that was read.
  parts-Replaced :
      (now : Time) (t : Tables) (order working : List Uuid) (c : Cut) (w₃ w₄ w₅ w₆ : World)
      {m : ConversationMetadata}
      → order ≡ select_order id t
      → w₃.tables ≡ t
      → cut spec.from_id spec.to_id spec.insert_ids order ≡ ok c
      → insert_range d id spec.insert_ids c w₃ ≡ (ok working, w₄)
      → ensure_unique working ≡ ok tt
      → rewrite_conversation_order d id working w₄ ≡ (ok tt, w₅)
      → store_count d id (length working) now w₅ ≡ (ok m, w₆)
      → Replaced id spec t
          (record {
            metadata = m;
            replaced_message_ids = c.replaced;
            inserted_message_ids = spec.insert_ids;
          })
          w₆.tables
  parts-Replaced now t order working c w₃ w₄ w₅ w₆ {m} read kept cuts inserts unique rewrites
        counts =
      let s = cut-Splices spec.from_id spec.to_id spec.insert_ids order cuts in
      let (placed, same) = insert_range-eq-ok d id spec.insert_ids c s w₃ inserts in
      let written =
        store_count-OrderWritten d id working w₄.tables.messages now w₄.tables w₅ w₆
          (rewrite-Rewritten d id working w₄ w₅ rewrites) counts in
      record {
        before = s.before;
        after = s.after;
        was = sym read ∙ s.whole;
        ends = s.ends;
        inserted = refl;
        distinct = subst IsDistinct placed (ensure_unique-eq-ok working unique);
        written =
            subst₂ (λ (o : List Uuid) (x : Tables). OrderWritten id o x.messages x m w₆.tables)
              placed (same ∙ kept) written;
      }

  pub replace_range_tx-eq-ok :
      (now : Time) (w : World) {r : ReplaceRangeResult} {w' : World}
      → replace_range_tx d id spec now w ≡ (ok r, w')
      → Replaced id spec w.tables r w'.tables
  unfolding replace_range_tx
  replace_range_tx-eq-ok now w {r} {w'} h =
      let (m₀, w₁, p₁, h₁) = >>=-eq-ok (load_conversation_metadata_for_update d id) _ w h in
      let (order, w₂, p₂, h₂) = >>=-eq-ok (fetch_conversation_order d id) _ w₁ h₁ in
      let (c, w₃, p₃, h₃) =
        >>=-eq-ok (lift (cut spec.from_id spec.to_id spec.insert_ids order)) _ w₂ h₂ in
      let (working, w₄, p₄, h₄) = >>=-eq-ok (insert_range d id spec.insert_ids c) _ w₃ h₃ in
      let (u, w₅, p₅, h₅) = >>=-eq-ok (lift (ensure_unique working)) _ w₄ h₄ in
      let (v, w₆, p₆, h₆) = >>=-eq-ok (rewrite_conversation_order d id working) _ w₅ h₅ in
      let (m, w₇, p₇, h₇) = >>=-eq-ok (store_count d id (length working) now) _ w₆ h₆ in
      let read = fetch-eq-ok d id w₁ p₂ in
      let loaded = load-eq-ok d id w p₁ in
      let cuts = lift-eq-ok (cut spec.from_id spec.to_id spec.insert_ids order) w₂ p₃ in
      let unique = lift-eq-ok (ensure_unique working) w₄ p₅ in
      let done = pair_eq h₇ in
      let result =
        parts-Replaced now w.tables order working c w₃ w₄ w₆ w₇
          (read.0 ∙ ap (select_order id) loaded)
          (ap (λ (x : World). x.tables) cuts.1 ∙ read.1 ∙ loaded) cuts.0 p₄ unique.0
          (subst (λ (x : World). rewrite_conversation_order d id working x ≡ (ok tt, w₆)) unique.1
            p₆)
          p₇ in
      subst₂ (Replaced id spec w.tables) (ok-injective done.0) (ap (λ (x : World). x.tables) done.1)
        result

  -- A replacement that returns has put the ids of the request in the place of the range that it
  -- names; the new order has no id twice and is counted, the version has grown by one, and the
  -- other conversations, the messages and the snapshots are as before.
  pub replace_range-Replaced :
      (w : World) {r : ReplaceRangeResult} {w' : World}
      → replace_conversation_messages_range d id spec w ≡ (ok r, w')
      → Replaced id spec w.tables r w'.tables
  unfolding replace_conversation_messages_range
  replace_range-Replaced w {r} {w'} h =
      elim (Bool-cases (not (is_some spec.from_id) && not (is_some spec.to_id))) [
        | inl refused ↦ ground arith
        | inr asked ↦
            let ran : run_tx d (replace_range_tx d id spec) w ≡ (ok r, w') = rw asked at h in
            let (w₁, body, end) = run_tx-eq-ok d (replace_range_tx d id spec) w ran in
            subst (Replaced id spec w.tables r) (ap (λ (x : World). x.tables) (sym end))
              (replace_range_tx-eq-ok (d.now w.calls) (tick w) body)
      ]
