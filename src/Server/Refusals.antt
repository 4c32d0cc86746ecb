-- ===== src/Server/Refusals.antt =====
-- What a refused request of internal/server/server.go leaves in the tables.
use agent_state.Common.{
  String, ◌≡◌, refl, ap, ◌∙◌, ◌⊎◌, inl, inr, Bool, Bool-cases, Option, none, some, List, [], ◌∷◌,
  arith, is_some, not, ◌&&◌,
}
use agent_state.Errors.{Uuid, Result, ok, err, external}
use agent_state.Message.{Time, AppendMessageInput}
use agent_state.Message.Columns.{MapJson}
use agent_state.Database.{Tables, World, Driver}
use agent_state.Database.Monad.{Db, run_tx, begun, finish, commit, tick}
use agent_state.Token.{UuidText, TokenText}
use agent_state.Server.Handlers.{
  refusal, AppendRequest, ReplaceRequest, RangeRequest, serve, answered, serve_append,
  serve_replace, serve_delete, read_append, read_replace, read_delete,
}
use agent_state.Server.Status.{
  StatusError, internal, to_status_error, to_status_error_lem, code_of, root,
}
use agent_state.Server.Listings.{CreateSnapshotRequest, serve_create_snapshot, read_create_snapshot}
use agent_state.Message.Digest.{Digest}
use agent_state.Store.Snapshot.{create_snapshot, create_snapshot_tx}
use agent_state.Store.Append.{append_conversation_messages, append_tx}
use agent_state.Store.Range.{
  ReplaceRangeSpec, DeleteRangeSpec, replace_conversation_messages_range,
  delete_conversation_messages_range, replace_range_tx, delete_range_tx,
}

module _ {A : Type 0} where
  -- An error leaves the tables `t`, or is the database's.
  abbrev IsHarmless : Tables → Result A × World → Type 0
  IsHarmless t (ok a, w) = Unit
  IsHarmless t (err e, w) = (w.tables ≡ t) ⊎ ((m : String) × (e ≡ external m))

  commit-IsHarmless :
      (d : Driver) (t : Tables) (a : A) (o : Option String) (applied : Bool) (w : World)
      → IsHarmless t (commit d t a o applied w)
  commit-IsHarmless d t a none applied w = tt
  commit-IsHarmless d t a (some m) applied w = inr (m, refl)

  finish-IsHarmless : (d : Driver) (t : Tables) (r : Result A × World) → IsHarmless t (finish d t r)
  finish-IsHarmless d t (ok a, w) =
      commit-IsHarmless d t a (d.fault w.calls) (d.commit_applies w.calls) (tick w)
  finish-IsHarmless d t (err e, w) = inl refl

  begun-IsHarmless :
      (d : Driver) (o : Option String) (body : Time → Db A) (w : World)
      → IsHarmless w.tables (begun d o body w)
  begun-IsHarmless d none body w = finish-IsHarmless d w.tables (body (d.now w.calls) (tick w))
  begun-IsHarmless d (some m) body w = inl refl

  run_tx-IsHarmless :
      (d : Driver) (body : Time → Db A) (w : World) → IsHarmless w.tables (run_tx d body w)
  unfolding run_tx
  run_tx-IsHarmless d body w = begun-IsHarmless d (d.fault w.calls) body w

module _ {A B : Type 0} (f : A → B) where
  answered-refusal :
      (t : Tables) (r : Result A × World) {s : StatusError} {w' : World}
      → IsHarmless t r
      → answered f r ≡ (refusal s, w')
      → (w'.tables ≡ t) ⊎ (s.code ≡ internal)
  answered-refusal t (ok a, w) h e = ground arith
  answered-refusal t (err x, w) (inl same) e = inl (ground arith)
  answered-refusal t (err x, w) {s} (inr (m, made)) e =
      let same : s ≡ to_status_error x = ground arith in
      inr (
        ap (λ (z : StatusError). z.code) (same ∙ to_status_error_lem x)
        ∙ ap (λ y. code_of (root y)) made)

  serve-refusal :
      {R : Type 0} (read : Result R) (call : R → World → Result A × World) (w : World)
      {s : StatusError} {w' : World}
      → ((r : R) → IsHarmless w.tables (call r w))
      → serve read call f w ≡ (refusal s, w')
      → (w'.tables ≡ w.tables) ⊎ (s.code ≡ internal)
  serve-refusal (ok r) call w h e = answered-refusal w.tables (call r w) (h r) e
  serve-refusal (err x) call w h e = inl (ground arith)

module _ (d : Driver) where
  append-IsHarmless :
      (json : MapJson) (id : Uuid) (inputs : List AppendMessageInput) (w : World)
      → IsHarmless w.tables (append_conversation_messages json d id inputs w)
  unfolding append_conversation_messages
  append-IsHarmless json id [] w = inl refl
  append-IsHarmless json id (x ∷ xs) w = run_tx-IsHarmless d (append_tx json d id (x ∷ xs)) w

  replace-IsHarmless :
      (id : Uuid) (spec : ReplaceRangeSpec) (w : World)
      → IsHarmless w.tables (replace_conversation_messages_range d id spec w)
  unfolding replace_conversation_messages_range
  replace-IsHarmless id spec w =
      elim (Bool-cases (not (is_some spec.from_id) && not (is_some spec.to_id))) [
        | inl unbounded ↦ rw unbounded (inl refl)
        | inr ends ↦ rw ends (run_tx-IsHarmless d (replace_range_tx d id spec) w)
      ]

  delete-IsHarmless :
      (id : Uuid) (spec : DeleteRangeSpec) (w : World)
      → IsHarmless w.tables (delete_conversation_messages_range d id spec w)
  unfolding delete_conversation_messages_range
  delete-IsHarmless id spec w =
      elim (Bool-cases (not (is_some spec.from_id) && not (is_some spec.to_id))) [
        | inl unbounded ↦ rw unbounded (inl refl)
        | inr ends ↦ rw ends (run_tx-IsHarmless d (delete_range_tx d id spec) w)
      ]

  snapshot-IsHarmless :
      (json : MapJson) (digest : Digest) (id : Uuid) (ids : List Uuid) (w : World)
      → IsHarmless w.tables (create_snapshot json digest d id ids w)
  unfolding create_snapshot
  snapshot-IsHarmless json digest id [] w = inl refl
  snapshot-IsHarmless json digest id (x ∷ xs) w =
      run_tx-IsHarmless d (create_snapshot_tx json digest d id (x ∷ xs)) w

-- An append request that is refused with another code than Internal has not changed the tables.
pub serve_append-refusal :
    (u : UuidText) (json : MapJson) (d : Driver) (req : AppendRequest) (w : World) {s : StatusError}
    {w' : World}
    → serve_append u d json req w ≡ (refusal s, w')
    → (w'.tables ≡ w.tables) ⊎ (s.code ≡ internal)
unfolding serve_append
serve_append-refusal u json d req w h =
    serve-refusal _ (read_append u req) _ w (λ r. append-IsHarmless d json r.0 r.1 w) h

-- A replacement request that is refused with another code than Internal has not changed the tables.
pub serve_replace-refusal :
    (u : UuidText) (d : Driver) (req : ReplaceRequest) (w : World) {s : StatusError} {w' : World}
    → serve_replace u d req w ≡ (refusal s, w')
    → (w'.tables ≡ w.tables) ⊎ (s.code ≡ internal)
unfolding serve_replace
serve_replace-refusal u d req w h =
    serve-refusal _ (read_replace u req) _ w (λ r. replace-IsHarmless d r.0 r.1 w) h

-- A deletion request that is refused with another code than Internal has not changed the tables.
pub serve_delete-refusal :
    (u : UuidText) (d : Driver) (req : RangeRequest) (w : World) {s : StatusError} {w' : World}
    → serve_delete u d req w ≡ (refusal s, w')
    → (w'.tables ≡ w.tables) ⊎ (s.code ≡ internal)
unfolding serve_delete
serve_delete-refusal u d req w h =
    serve-refusal _ (read_delete u req) _ w (λ r. delete-IsHarmless d r.0 r.1 w) h

-- A snapshot request that is refused with another code than Internal has not changed the tables.
pub serve_create_snapshot-refusal :
    (u : UuidText) (c : TokenText) (json : MapJson) (digest : Digest) (d : Driver)
    (req : CreateSnapshotRequest) (w : World) {s : StatusError} {w' : World}
    → serve_create_snapshot u c d json digest req w ≡ (refusal s, w')
    → (w'.tables ≡ w.tables) ⊎ (s.code ≡ internal)
unfolding serve_create_snapshot
serve_create_snapshot-refusal u c json digest d req w h =
    serve-refusal _ (read_create_snapshot u c req) _ w
      (λ r. snapshot-IsHarmless d json digest r.0 r.1 w) h
