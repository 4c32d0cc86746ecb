-- ===== src/Server/Roles.antt =====
-- The conversion of enums to int16 in internal/server/converter.go.
use agent_state.Common.{
  ℕ, ◌*◌, ◌<◌, ◌≡◌, ◌≢◌, refl, sym, ap, ◌∙◌, false, some, arith, Bool-cases, inl, inr,
}
use agent_state.Common.Int.{ℤ, pos, negsuc}
use agent_state.Errors.{ok, bind-eq-ok, ok-injective}
use agent_state.Message.{AppendMessageInput, MessageBody}
use agent_state.Server.{ProtoInput}
use agent_state.Server.Converter.{
  to_int16, is_unspecified, from_proto_append_message, from_proto_message_body,
}

abbrev pub FitsInt16 : ℤ → Type 0
FitsInt16 (pos n) = n < 32768
FitsInt16 (negsuc n) = n < 32768

pub to_int16-eq_of_fits : (z : ℤ) → FitsInt16 z → to_int16 z ≡ z
unfolding to_int16
to_int16-eq_of_fits (pos n) h = ground arith
to_int16-eq_of_fits (negsuc n) h = ground arith

to_int16-multiple : (k : ℕ) → to_int16 (pos (65536 * k)) ≡ pos 0
unfolding to_int16
to_int16-multiple k = ground arith

from_proto-role :
    (p : ProtoInput) {input : AppendMessageInput}
    → from_proto_append_message (some p) ≡ ok input
    → (is_unspecified p.role ≡ false) × (input.role ≡ to_int16 p.role)
unfolding from_proto_append_message
from_proto-role p h = elim (Bool-cases (is_unspecified p.role)) [
  | inl absent ↦ ground arith
  | inr given ↦
      let (body, e, made) = bind-eq-ok (from_proto_message_body p.body) _ (rw given at h) in
      (given, ap (λ (x : AppendMessageInput). x.role) (sym (ok-injective made)))
]

specified_role : (z : ℤ) → is_unspecified z ≡ false → z ≢ pos 0
specified_role z h e = ground arith

-- A message whose role fits an int16 is accepted only with a role that is not the unspecified one,
-- and keeps it.
pub from_proto-role_kept :
    (p : ProtoInput) {input : AppendMessageInput}
    → FitsInt16 p.role
    → from_proto_append_message (some p) ≡ ok input
    → (input.role ≡ p.role) × (input.role ≢ pos 0)
from_proto-role_kept p fits h =
    let (given, made) = from_proto-role p h in
    let same = made ∙ to_int16-eq_of_fits p.role fits in
    (same, λ e. specified_role p.role given (sym same ∙ e))

-- A message with a role that is a multiple of 2^16, but not 0, is converted, where its body is, to
-- one with the unspecified role.
pub from_proto-role_lost :
    (p : ProtoInput) (k : ℕ) {body : MessageBody}
    → 0 < k
    → p.role ≡ pos (65536 * k)
    → from_proto_message_body p.body ≡ ok body
    → from_proto_append_message (some p) ≡ ok (record { role = pos 0; kind = p.kind; body = body })
unfolding from_proto_append_message
from_proto-role_lost p k some_k e b =
    let given : is_unspecified p.role ≡ false = rw e (ground arith) in
    rw (given, b, e, to_int16-multiple k) refl
