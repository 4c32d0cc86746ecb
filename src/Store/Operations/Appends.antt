-- ===== src/Store/Operations/Appends.antt =====
-- The transaction of internal/state/append.go keeps what its statements keep.
use agent_state.Common.{ℕ, ◌+◌, refl, List, [], ◌∷◌, length}
use agent_state.Errors.{Uuid, ok}
use agent_state.Message.{Time, AppendMessageInput}
use agent_state.Message.Columns.{MapJson, MessageColumns, encode_message_body}
use agent_state.Message.Row.{to_domain}
use agent_state.Database.{Tables, Driver}
use agent_state.Database.Keeps.{Keeps, Keeps-lift, Keeps-wrapped}
use agent_state.Database.Monad.{◌>>=◌, ◌>>◌, lift, new_uuid, modify, wrapped}
use agent_state.Database.Statements.{
  ensure_conversation, update_counts, insert_message, insert_item,
}
use agent_state.Store.Append.{row_of, append_message, append_each, append_tx}
use agent_state.Store.Operations.Steps.{KeptByWrites, bind, step, reading}

module _ (P : Tables → ℕ → Type 0) (k : KeptByWrites P) (json : MapJson) (d : Driver) (id : Uuid)
    (now : Time) where
  append_row-Keeps :
      (input : AppendMessageInput) (cols : MessageColumns) (x : Uuid)
      → Keeps P (do
        created ←
            wrapped "insert message" (modify d (insert_message d now (row_of x id input cols now)))
        wrapped "insert conversation item" (insert_item d id x)
        lift (to_domain json (row_of x id input cols created)))
  append_row-Keeps input cols x =
      bind P
        (wrapped "insert message" (modify d (insert_message d now (row_of x id input cols now)))) _
        (step P d _ _ (k.inserted d now (row_of x id input cols now)))
        λ created.
          bind P (wrapped "insert conversation item" (insert_item d id x)) _
            (Keeps-wrapped P _ _ (k.placed d id x)) λ u. Keeps-lift P _

  append_message-Keeps : (input : AppendMessageInput) → Keeps P (append_message json d id now input)
  unfolding append_message
  append_message-Keeps input =
      bind P (lift (encode_message_body json input.body)) _ (Keeps-lift P _) λ cols.
        bind P (new_uuid d)
          (λ x. do
            created ←
                wrapped "insert message"
                  (modify d (insert_message d now (row_of x id input cols now)))
            wrapped "insert conversation item" (insert_item d id x)
            lift (to_domain json (row_of x id input cols created)))
          (reading P d (new_uuid d) (λ w. (refl, refl))) (append_row-Keeps input cols)

  append_each-Keeps :
      (inputs : List AppendMessageInput) → Keeps P (append_each json d id now inputs)
  unfolding append_each
  append_each-Keeps [] = Keeps-lift P (ok [])
  append_each-Keeps (x ∷ xs) =
      bind P (append_message json d id now x) _ (append_message-Keeps x) λ m.
        bind P (append_each json d id now xs) _ (append_each-Keeps xs)
          λ ms. Keeps-lift P (ok (m ∷ ms))

  pub append_tx-Keeps :
      (inputs : List AppendMessageInput) → Keeps P (append_tx json d id inputs now)
  unfolding append_tx
  append_tx-Keeps inputs =
      bind P (wrapped "ensure conversation" (modify d (ensure_conversation id now))) _
        (step P d _ _ (k.ensured id now))
        λ u. bind P (append_each json d id now inputs) _ (append_each-Keeps inputs) λ ms.
          bind P
            (wrapped "update conversation metadata"
              (modify d (update_counts (λ n. n + length inputs) id now)))
            _ (step P d _ _ (k.counted (λ n. n + length inputs) id now)) λ c. Keeps-lift P _
