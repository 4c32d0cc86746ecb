-- ===== src/Store/Operations/Runs.antt =====
-- What the transactions of internal/state keep, the operations keep, on every path, and any sequence
-- of operations.
use agent_state.Common.{not, ◌&&◌, is_some, Bool-cases, inl, inr, ℕ, List, [], ◌∷◌, arith}
use agent_state.Errors.{Uuid}
use agent_state.Message.{Time, AppendMessageInput}
use agent_state.Message.Columns.{MapJson}
use agent_state.Message.Digest.{Digest}
use agent_state.Database.{Tables, World, Driver}
use agent_state.Database.Keeps.{Keeps, Kept, Keeps-run_tx}
use agent_state.Store.Append.{append_conversation_messages}
use agent_state.Store.Operations.{Operation, append, replace, delete, snapshot, exec, run}
use agent_state.Store.Range.{
  ReplaceRangeSpec, DeleteRangeSpec, replace_conversation_messages_range,
  delete_conversation_messages_range,
}
use agent_state.Store.Snapshot.{create_snapshot, create_snapshot_tx}
use agent_state.Store.Operations.Appends.{append_tx-Keeps}
use agent_state.Store.Operations.Ranges.{replace_range_tx-Keeps, delete_range_tx-Keeps}
use agent_state.Store.Operations.Steps.{KeptByWrites}

module _ (P : Tables → ℕ → Type 0) (k : KeptByWrites P) (json : MapJson) (d : Driver) where
  pub append-Keeps :
      (id : Uuid) (inputs : List AppendMessageInput)
      → Keeps P (append_conversation_messages json d id inputs)
  unfolding append_conversation_messages
  append-Keeps id [] = record { at = λ w v. (v, omega arith) }
  append-Keeps id (x ∷ xs) =
      Keeps-run_tx P k.later d _ (λ now. append_tx-Keeps P k json d id now (x ∷ xs))

  pub replace-Keeps :
      (id : Uuid) (spec : ReplaceRangeSpec)
      → Keeps P (replace_conversation_messages_range d id spec)
  unfolding replace_conversation_messages_range
  replace-Keeps id spec =
      elim (Bool-cases (not (is_some spec.from_id) && not (is_some spec.to_id))) [
        | inl unbounded ↦ rw unbounded (record { at = λ w v. (v, omega arith) })
        | inr ends ↦ rw ends (Keeps-run_tx P k.later d _ (replace_range_tx-Keeps P k d id spec))
      ]

  pub delete-Keeps :
      (id : Uuid) (spec : DeleteRangeSpec) → Keeps P (delete_conversation_messages_range d id spec)
  unfolding delete_conversation_messages_range
  delete-Keeps id spec =
      elim (Bool-cases (not (is_some spec.from_id) && not (is_some spec.to_id))) [
        | inl unbounded ↦ rw unbounded (record { at = λ w v. (v, omega arith) })
        | inr ends ↦ rw ends (Keeps-run_tx P k.later d _ (delete_range_tx-Keeps P k d id spec))
      ]

module _ (P : Tables → ℕ → Type 0) (k : KeptByWrites P) (json : MapJson) (digest : Digest)
    (d : Driver)
    (copied : (id : Uuid) (ids : List Uuid) (now : Time)
      → Keeps P (create_snapshot_tx json digest d id ids now)) where
  snapshot-Keeps : (id : Uuid) (ids : List Uuid) → Keeps P (create_snapshot json digest d id ids)
  unfolding create_snapshot
  snapshot-Keeps id [] = record { at = λ w v. (v, omega arith) }
  snapshot-Keeps id (x ∷ xs) = Keeps-run_tx P k.later d _ (copied id (x ∷ xs))

  exec-Kept :
      (op : Operation) (w : World) → P w.tables w.sequence → Kept P w (exec json digest d op w)
  exec-Kept (append id inputs) = (append-Keeps P k json d id inputs).at
  exec-Kept (replace id spec) = (replace-Keeps P k json d id spec).at
  exec-Kept (delete id spec) = (delete-Keeps P k json d id spec).at
  exec-Kept (snapshot id ids) = (snapshot-Keeps id ids).at

  pub run-Kept :
      (ops : List Operation) (w : World)
      → P w.tables w.sequence
      → P (run json digest d ops w).tables (run json digest d ops w).sequence
  run-Kept [] w v = v
  run-Kept (op ∷ ops) w v = run-Kept ops (exec json digest d op w) (exec-Kept op w v).0
