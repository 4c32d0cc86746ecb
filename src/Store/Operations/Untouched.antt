-- ===== src/Store/Operations/Untouched.antt =====
-- Appends, replacements and deletions do not write the tables of snapshots: their statements keep
-- every property of those.
use agent_state.Common.{ℕ, ◌+◌, ◌≡◌, refl, sym, subst, ltb, Bool-cases, inl, inr, List, arith}
use agent_state.Errors.{Uuid, Result, ok, err}
use agent_state.Database.{Snapshot, SnapshotItem, Tables, World, Driver}
use agent_state.Database.Counts.{update_counts-Updated}
use agent_state.Database.Ensured.{ensure_conversation-Ensured}
use agent_state.Database.Inserted.{insert_message-eq-ok}
use agent_state.Database.Keeps.{Keeps, Kept, Keeps-statement}
use agent_state.Database.Schema.{place_item-eq-ok}
use agent_state.Database.Statements.{
  insert_item, place_item, placed, bigint_limit, delete_items, delete_messages,
}
use agent_state.Store.Operations.Steps.{KeptByWrites}

module _ (Q : List Snapshot → List SnapshotItem → Type 0) where
  abbrev pub OfSnapshots : Tables → ℕ → Type 0
  OfSnapshots t s = Q t.snapshots t.snapshot_items

  placed-Kept :
      (conversation x : Uuid) (w : World) (a : Result (Unit {0} × Tables))
      → OfSnapshots w.tables w.sequence
      → place_item conversation x (w.sequence + 1) w.tables ≡ a
      → Kept OfSnapshots w (placed a (record w { sequence = w.sequence + 1 })).1
  placed-Kept conversation x w (ok (u, t)) v e =
      let (known, fresh, same) = place_item-eq-ok conversation x (w.sequence + 1) w.tables e in
      (subst (λ y. OfSnapshots y (w.sequence + 1)) (sym same) v, omega arith)
  placed-Kept conversation x w (err e) v h = (v, omega arith)

  insert_item-Keeps :
      (d : Driver) (conversation x : Uuid) → Keeps OfSnapshots (insert_item d conversation x)
  insert_item-Keeps d conversation x = Keeps-statement OfSnapshots d _ (record {
    at = λ w v. elim (Bool-cases (ltb (w.sequence + 1) bigint_limit)) [
      | inl fits ↦ rw fits (
          placed-Kept conversation x w (place_item conversation x (w.sequence + 1) w.tables) v refl)
      | inr full ↦ rw full (v, omega arith)
    ];
  })

  pub snapshots_kept : KeptByWrites OfSnapshots
  unfolding delete_items delete_messages
  snapshots_kept = record {
    later = λ t s s' h v. v;
    ensured = λ i now t s u t' v h.
        subst (λ y. OfSnapshots y s) (sym (ensure_conversation-Ensured i now t h).frame) v;
    counted = λ count i now t s c t' v h.
        subst (λ y. OfSnapshots y s) (sym (update_counts-Updated count i now t h).frame) v;
    inserted = λ d now row t s c t' v h.
        let (cols, kept, at_now, same) = insert_message-eq-ok d now row t h in
        subst (λ y. OfSnapshots y s) (sym same) v;
    placed = insert_item-Keeps;
    cleared = λ i t s v. v;
    deleted = λ i ids t s v. v;
  }
