-- ===== src/Store/Deleted.antt =====
-- What a deletion of a range in internal/state/range_ops.go does.
use mathlib.Core.Path.{subst₂}
use agent_state.Common.{
  ℕ, ◌+◌, ◌≡◌, sym, ap, ◌∙◌, subst, List, ◌++◌, length, take, drop, arith, is_some, Bool-cases, inl,
  inr, not, ◌&&◌,
}
use agent_state.Errors.{Uuid, ok, ok-injective}
use agent_state.Message.{Time}
use agent_state.Database.{Tables, World, Driver}
use agent_state.Database.Query.{filter_by}
use agent_state.Database.Monad.{lift, tick, run_tx}
use agent_state.Database.Outcome.{>>=-eq-ok, lift-eq-ok, run_tx-eq-ok, pair_eq}
use agent_state.Database.Statements.{select_order, doomed}
use agent_state.Store.{ConversationMetadata, load_conversation_metadata_for_update}
use agent_state.Store.Cut.{slice, range_ends}
use agent_state.Store.Cut.Ends.{BeginsAt, StopsAt, range_ends-parts}
use agent_state.Store.Distinct.{IsDistinct, around-Avoids}
use agent_state.Store.Reads.{load-eq-ok, fetch-eq-ok}
use agent_state.Store.Range.{
  DeleteRangeSpec, DeleteRangeResult, fetch_conversation_order, delete_rows,
  rewrite_conversation_order, store_count, delete_range_tx, delete_conversation_messages_range,
}
use agent_state.Store.Written.{OrderWritten, Rewritten, store_count-OrderWritten, rewrite-Rewritten}
use agent_state.Store.Cascade.{IsConsistent, delete_rows-Rewritten}
use agent_state.Store.Thinned.{Thinned, MessageOf, doomed-Thinned}
use agent_state.Store.Names.{NamesOwn, IsConsistent-of_names}
use agent_state.Database.WellFormed.{IsWellFormed}
use agent_state.Message.Row.{MessageRow}

-- The range between `before` and `after` is gone from the order, and its messages from the messages.
pub record Deleted (id : Uuid) (spec : DeleteRangeSpec) (t : Tables) (r : DeleteRangeResult)
    (t' : Tables) : Type 0 where
  pub before : List Uuid
  pub after : List Uuid
  pub was : select_order id t ≡ before ++ (r.deleted_message_ids ++ after)
  pub begins : BeginsAt spec.from_id before r.deleted_message_ids
  pub stops : StopsAt spec.to_id r.deleted_message_ids after
  -- DELETE FROM messages
  pub removed : Thinned (MessageOf id r.deleted_message_ids) t.messages t'.messages
  pub written : OrderWritten id (before ++ after) t'.messages t r.metadata t'

module _ (d : Driver) (id : Uuid) (spec : DeleteRangeSpec) where
  -- The parts of the transaction from the writes on, for the ends that were found.
  parts-Deleted :
      (now : Time) (t : Tables) (order : List Uuid) (i j : ℕ) (w₃ w₄ w₅ w₆ : World)
      {m : ConversationMetadata}
      → IsConsistent t
      → order ≡ select_order id t
      → w₃.tables ≡ t
      → range_ends spec.from_id spec.to_id order ≡ ok (i, j)
      → rewrite_conversation_order d id (take i order ++ drop (j + 1) order) w₃ ≡ (ok tt, w₄)
      → delete_rows d id (slice i (j + 1) order) w₄ ≡ (ok tt, w₅)
      → store_count d id (length (take i order ++ drop (j + 1) order)) now w₅ ≡ (ok m, w₆)
      → Deleted id spec t
          (record { metadata = m; deleted_message_ids = slice i (j + 1) order })
          w₆.tables
  parts-Deleted now t order i j w₃ w₄ w₅ w₆ {m} valid read kept found rewrites deletes counts =
      let before = take i order in
      let mid = slice i (j + 1) order in
      let after = drop (j + 1) order in
      let (whole, begins, stops) = range_ends-parts spec.from_id spec.to_id order found in
      let distinct : IsDistinct (before ++ (mid ++ after)) =
        subst IsDistinct (sym read ∙ whole) (valid.distinct id) in
      let e : Rewritten id (before ++ after) t.messages t w₄.tables =
        subst (λ (x : Tables). Rewritten id (before ++ after) x.messages x w₄.tables) kept
          (rewrite-Rewritten d id (before ++ after) w₃ w₄ rewrites) in
      let e' =
        delete_rows-Rewritten d id mid (before ++ after) t w₄ valid.owned
          (around-Avoids before mid after distinct) e deletes in
      let left = filter_by (λ m. not (doomed id mid m)) t.messages in
      let written : OrderWritten id (before ++ after) left t m w₆.tables =
        store_count-OrderWritten d id (before ++ after) left now t w₅ w₆ e' counts in
      record {
        before = before;
        after = after;
        was = sym read ∙ whole;
        begins = begins;
        stops = stops;
        removed =
            subst (Thinned (MessageOf id mid) t.messages) (sym written.new_messages)
              (doomed-Thinned id mid t.messages);
        written =
            subst (λ (ms : List MessageRow). OrderWritten id (before ++ after) ms t m w₆.tables)
              (sym written.new_messages) written;
      }

  pub delete_range_tx-eq-ok :
      (now : Time) (w : World) {r : DeleteRangeResult} {w' : World}
      → IsConsistent w.tables
      → delete_range_tx d id spec now w ≡ (ok r, w')
      → Deleted id spec w.tables r w'.tables
  unfolding delete_range_tx
  delete_range_tx-eq-ok now w {r} {w'} valid h =
      let (m₀, w₁, p₁, h₁) = >>=-eq-ok (load_conversation_metadata_for_update d id) _ w h in
      let (order, w₂, p₂, h₂) = >>=-eq-ok (fetch_conversation_order d id) _ w₁ h₁ in
      let (ends, w₃, p₃, h₃) =
        >>=-eq-ok (lift (range_ends spec.from_id spec.to_id order)) _ w₂ h₂ in
      let remaining = take ends.0 order ++ drop (ends.1 + 1) order in
      let deleted = slice ends.0 (ends.1 + 1) order in
      let (v, w₄, p₄, h₄) = >>=-eq-ok (rewrite_conversation_order d id remaining) _ w₃ h₃ in
      let (u, w₅, p₅, h₅) = >>=-eq-ok (delete_rows d id deleted) _ w₄ h₄ in
      let (m, w₆, p₆, h₆) = >>=-eq-ok (store_count d id (length remaining) now) _ w₅ h₅ in
      let read = fetch-eq-ok d id w₁ p₂ in
      let loaded = load-eq-ok d id w p₁ in
      let found = lift-eq-ok (range_ends spec.from_id spec.to_id order) w₂ p₃ in
      let done = pair_eq h₆ in
      let result =
        parts-Deleted now w.tables order ends.0 ends.1 w₃ w₄ w₅ w₆ valid
          (read.0 ∙ ap (select_order id) loaded)
          (ap (λ (x : World). x.tables) found.1 ∙ read.1 ∙ loaded) found.0 p₄ p₅ p₆ in
      subst₂ (Deleted id spec w.tables) (ok-injective done.0) (ap (λ (x : World). x.tables) done.1)
        result

  -- A deletion that returns, in well formed tables whose orders name messages of their own
  -- conversation, has taken the range between the ends of the request out of the order; of the
  -- messages, exactly those of the conversation with the ids of the range are gone. The order that
  -- is left is counted, the version has grown by one, and the orders and counts of the other
  -- conversations and the snapshots are as before.
  pub delete_range-Deleted :
      (w : World) {r : DeleteRangeResult} {w' : World}
      → IsWellFormed w.tables w.sequence
      → NamesOwn w.tables
      → delete_conversation_messages_range d id spec w ≡ (ok r, w')
      → Deleted id spec w.tables r w'.tables
  unfolding delete_conversation_messages_range
  delete_range-Deleted w {r} {w'} formed own h =
      elim (Bool-cases (not (is_some spec.from_id) && not (is_some spec.to_id))) [
        | inl refused ↦ ground arith
        | inr asked ↦
            let ran : run_tx d (delete_range_tx d id spec) w ≡ (ok r, w') = rw asked at h in
            let (w₁, body, end) = run_tx-eq-ok d (delete_range_tx d id spec) w ran in
            let valid = IsConsistent-of_names w.tables w.sequence formed own in
            subst (Deleted id spec w.tables r) (ap (λ (x : World). x.tables) (sym end))
              (delete_range_tx-eq-ok (d.now w.calls) (tick w) valid body)
      ]
