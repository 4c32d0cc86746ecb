-- ===== src/Store/Operations/Owned.antt =====
-- The operations of internal/state keep each conversation's order on messages of its own.
use agent_state.Common.{
  ◌≡◌, sym, ap, ◌∙◌, subst, inl, inr, Bool-cases, not, ◌&&◌, is_some, List, [], ◌∷◌, All,
}
use agent_state.Errors.{Uuid, ok}
use agent_state.Message.{Time, AppendMessageInput}
use agent_state.Message.Columns.{MapJson}
use agent_state.Message.Digest.{Digest}
use agent_state.Database.{Tables, World, Driver}
use agent_state.Database.Among.{ScansRows}
use agent_state.Database.Ended.{run_tx-ended}
use agent_state.Database.Monad.{Db, lift, tick, run_tx}
use agent_state.Database.Outcome.{>>=-eq-ok, lift-eq-ok}
use agent_state.Database.WellFormed.{IsWellFormed}
use agent_state.Store.{load_conversation_metadata_for_update}
use agent_state.Store.Append.{append_conversation_messages, append_tx}
use agent_state.Store.Appended.{append_tx-eq-ok}
use agent_state.Store.Cut.{cut}
use agent_state.Store.Deleted.{delete_range_tx-eq-ok}
use agent_state.Store.Names.{Has, NamesOwn, IsConsistent-of_names}
use agent_state.Store.Operations.{Operation, append, replace, delete, snapshot, exec, run}
use agent_state.Store.Operations.Names.{
  All-same, Appended-NamesOwn, Replaced-NamesOwn, Deleted-NamesOwn,
}
use agent_state.Store.Operations.Schema.{run-IsWellFormed}
use agent_state.Store.Present.{VisitsKeys, insert_range-Has}
use agent_state.Store.Range.{
  ReplaceRangeSpec, ReplaceRangeResult, DeleteRangeSpec, fetch_conversation_order, insert_range,
  replace_range_tx, delete_range_tx, replace_conversation_messages_range,
  delete_conversation_messages_range,
}
use agent_state.Store.Reads.{load-eq-ok, fetch-eq-ok}
use agent_state.Store.Replaced.{replace_range_tx-eq-ok}
use agent_state.Store.Snapshot.{create_snapshot, create_snapshot_tx}
use agent_state.Store.Snapshot.Created.{Created, create_snapshot_tx-eq-ok}
use agent_state.Store.Written.{select_order-items}
use agent_state.Database.{Snapshot}

-- A transaction whose body keeps a property of the tables where it returns keeps it on every path.
run_tx-keeps :
    {A : Type 0} (P : Tables → Type 0) (d : Driver) (body : Time → Db A) (w : World)
    → P w.tables
    → ((a : A) (w' : World) → body (d.now w.calls) (tick w) ≡ (ok a, w') → P w'.tables)
    → P (run_tx d body w).1.tables
run_tx-keeps P d body w held kept = elim (run_tx-ended d body w) [
  | inl same ↦ subst P (sym same) held
  | inr (a, returned, end) ↦ subst P (sym end) (kept a _ returned)
]

-- A snapshot leaves messages and items alone.
Created-NamesOwn :
    (json : MapJson) (digest : Digest) (d : Driver) (id : Uuid) (ids : List Uuid) (now : Time)
    (t t' : Tables) {s : Snapshot}
    → NamesOwn t
    → Created json digest d id ids now t s t'
    → NamesOwn t'
Created-NamesOwn json digest d id ids now t t' own c other =
    All-same other (ap (λ (x : Tables). x.messages) c.tables)
      (select_order-items other t' t (ap (λ (x : Tables). x.items) c.tables)) (own other)

module _ (json : MapJson) (digest : Digest) (d : Driver) (scans : ScansRows d)
    (visits : VisitsKeys d) where
  replaced-Has :
      (id : Uuid) (spec : ReplaceRangeSpec) (now : Time) (w : World) {r : ReplaceRangeResult}
      {w' : World}
      → replace_range_tx d id spec now w ≡ (ok r, w')
      → All (λ x. Has w.tables.messages id x) spec.insert_ids
  unfolding replace_range_tx
  replaced-Has id spec now w h =
      let (m₀, w₁, p₁, h₁) = >>=-eq-ok (load_conversation_metadata_for_update d id) _ w h in
      let (order, w₂, p₂, h₂) = >>=-eq-ok (fetch_conversation_order d id) _ w₁ h₁ in
      let (c, w₃, p₃, h₃) =
        >>=-eq-ok (lift (cut spec.from_id spec.to_id spec.insert_ids order)) _ w₂ h₂ in
      let (working, w₄, p₄, h₄) = >>=-eq-ok (insert_range d id spec.insert_ids c) _ w₃ h₃ in
      let cuts = lift-eq-ok (cut spec.from_id spec.to_id spec.insert_ids order) w₂ p₃ in
      let same : w₃.tables ≡ w.tables =
        ap (λ (x : World). x.tables) cuts.1 ∙ (fetch-eq-ok d id w₁ p₂).1 ∙ load-eq-ok d id w p₁ in
      subst (λ (t : Tables). All (λ x. Has t.messages id x) spec.insert_ids) same
        (insert_range-Has d scans visits id spec.insert_ids c w₃ p₄)

  append-NamesOwn :
      (id : Uuid) (inputs : List AppendMessageInput) (w : World)
      → IsWellFormed w.tables w.sequence
      → NamesOwn w.tables
      → NamesOwn (append_conversation_messages json d id inputs w).1.tables
  unfolding append_conversation_messages
  append-NamesOwn id [] w v own = own
  append-NamesOwn id (x ∷ xs) w v own =
      let now = d.now w.calls in
      run_tx-keeps NamesOwn d (append_tx json d id (x ∷ xs)) w own (λ a w' body.
        Appended-NamesOwn json d id now (x ∷ xs) w.tables w'.tables own
          (append_tx-eq-ok json d id now (x ∷ xs) (tick w) v.passed body))

  replace-NamesOwn :
      (id : Uuid) (spec : ReplaceRangeSpec) (w : World)
      → NamesOwn w.tables
      → NamesOwn (replace_conversation_messages_range d id spec w).1.tables
  unfolding replace_conversation_messages_range
  replace-NamesOwn id spec w own =
      elim (Bool-cases (not (is_some spec.from_id) && not (is_some spec.to_id))) [
        | inl unbounded ↦ rw unbounded own
        | inr ends ↦
            let now = d.now w.calls in
            rw ends (
              run_tx-keeps NamesOwn d (replace_range_tx d id spec) w own (λ r w' body.
                Replaced-NamesOwn id spec w.tables w'.tables own
                  (replaced-Has id spec now (tick w) body)
                  (replace_range_tx-eq-ok d id spec now (tick w) body)))
      ]

  delete-NamesOwn :
      (id : Uuid) (spec : DeleteRangeSpec) (w : World)
      → IsWellFormed w.tables w.sequence
      → NamesOwn w.tables
      → NamesOwn (delete_conversation_messages_range d id spec w).1.tables
  unfolding delete_conversation_messages_range
  delete-NamesOwn id spec w v own =
      elim (Bool-cases (not (is_some spec.from_id) && not (is_some spec.to_id))) [
        | inl unbounded ↦ rw unbounded own
        | inr ends ↦
            let now = d.now w.calls in
            let valid = IsConsistent-of_names w.tables w.sequence v own in
            rw ends (
              run_tx-keeps NamesOwn d (delete_range_tx d id spec) w own (λ r w' body.
                Deleted-NamesOwn id spec w.tables w'.tables own (valid.distinct id)
                  (delete_range_tx-eq-ok d id spec now (tick w) valid body)))
      ]

  snapshot-NamesOwn :
      (id : Uuid) (ids : List Uuid) (w : World)
      → NamesOwn w.tables
      → NamesOwn (create_snapshot json digest d id ids w).1.tables
  unfolding create_snapshot
  snapshot-NamesOwn id [] w own = own
  snapshot-NamesOwn id (x ∷ xs) w own =
      let now = d.now w.calls in
      run_tx-keeps NamesOwn d (create_snapshot_tx json digest d id (x ∷ xs)) w own (λ s w' body.
        Created-NamesOwn json digest d id (x ∷ xs) now w.tables w'.tables own
          (create_snapshot_tx-eq-ok json digest d scans id (x ∷ xs) now (tick w) body))

  exec-NamesOwn :
      (op : Operation) (w : World)
      → IsWellFormed w.tables w.sequence
      → NamesOwn w.tables
      → NamesOwn (exec json digest d op w).tables
  exec-NamesOwn (append id inputs) w v own = append-NamesOwn id inputs w v own
  exec-NamesOwn (replace id spec) w v own = replace-NamesOwn id spec w own
  exec-NamesOwn (delete id spec) w v own = delete-NamesOwn id spec w v own
  exec-NamesOwn (snapshot id ids) w v own = snapshot-NamesOwn id ids w own

  -- In tables that are well formed at first and in which each conversation's order names messages
  -- of that conversation only, any sequence of operations, whether they return or fail, keeps the
  -- latter, where a query returns rows of its result and a loop over a map visits all its keys.
  pub run-NamesOwn :
      (ops : List Operation) (w : World)
      → IsWellFormed w.tables w.sequence
      → NamesOwn w.tables
      → NamesOwn (run json digest d ops w).tables
  run-NamesOwn [] w v own = own
  run-NamesOwn (op ∷ ops) w v own =
      run-NamesOwn ops (exec json digest d op w) (run-IsWellFormed json digest d (op ∷ []) w v)
        (exec-NamesOwn op w v own)
