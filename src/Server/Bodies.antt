-- ===== src/Server/Bodies.antt =====
-- What internal/server/converter.go makes of a body, converted back, is the body.
use agent_state.Common.{
  String, ◌≡◌, refl, sym, ap, ◌∙◌, subst, Bool, true, false, Option, none, some, [], ◌∷◌, ◌++◌, All,
  arith, if◌then◌else◌,
}
use mathlib.Core.List.{append_assoc, append-nil}
use text.Mathlib.Text
use agent_state.Errors.{ok, ok-injective, bind-eq-ok}
use agent_state.Message.{Metadata, ToolOutputBody, MessageBody, validate}
use agent_state.Server.{
  ProtoOutput, text_output, image_output, ProtoTool, ProtoVariant, text_body, tool_body, ProtoBody,
}
use agent_state.Server.Converter.{
  put, copy_into, with_output, tool_start, tool_message, variant_from_proto,
  from_proto_message_body, to_proto_message_body,
}
use agent_state.Server.Roles.{FitsInt16, to_int16-eq_of_fits}

abbrev has_key : String → Metadata → Bool
has_key k [] = false
has_key k ((j, x) ∷ m) = if Text.◌==◌ k j then true else has_key k m

-- The entries of a map: no key twice.
abbrev pub IsMap : Metadata → Type 0
IsMap [] = Unit
IsMap ((k, v) ∷ m) = All (λ (e : String × String). Text.◌==◌ e.0 k ≡ false) m × IsMap m

abbrev IsFresh : Metadata → Metadata → Type 0
IsFresh to from = All (λ (e : String × String). has_key e.0 to ≡ false) from

put-fresh : (k v : String) (m : Metadata) → has_key k m ≡ false → put k v m ≡ m ++ (k, v) ∷ []
put-fresh k v [] h = refl
put-fresh k v ((j, x) ∷ m) h = ground (arith, put-fresh k v m)

has_key-snoc :
    (j k v : String) (m : Metadata)
    → has_key j m ≡ false
    → Text.◌==◌ j k ≡ false
    → has_key j (m ++ (k, v) ∷ []) ≡ false
has_key-snoc j k v [] h e = ground arith
has_key-snoc j k v ((i, x) ∷ m) h e = ground (arith, has_key-snoc j k v m)

IsFresh-snoc :
    (k v : String) (to from : Metadata)
    → IsFresh to from
    → All (λ (e : String × String). Text.◌==◌ e.0 k ≡ false) from
    → IsFresh (to ++ (k, v) ∷ []) from
IsFresh-snoc k v to [] h g = tt
IsFresh-snoc k v to ((j, x) ∷ from) h g =
    (has_key-snoc j k v to h.0 g.0, IsFresh-snoc k v to from h.1 g.1)

copy_into-append :
    (to from : Metadata) → IsFresh to from → IsMap from → copy_into to from ≡ to ++ from
copy_into-append to [] fresh m = sym (append-nil to)
copy_into-append to ((k, v) ∷ from) fresh m =
    ap (λ t. copy_into t from) (put-fresh k v to fresh.0)
    ∙ copy_into-append (to ++ (k, v) ∷ []) from (IsFresh-snoc k v to from fresh.1 m.0) m.1
    ∙ append_assoc to ((k, v) ∷ []) from

IsFresh-nil : (from : Metadata) → IsFresh [] from
IsFresh-nil [] = tt
IsFresh-nil (e ∷ from) = (refl, IsFresh-nil from)

copy_map : (m : Metadata) → IsMap m → copy_into [] m ≡ m
copy_map m h = copy_into-append [] m (IsFresh-nil m) h

copy_twice : (m : Metadata) → IsMap m → copy_into [] (copy_into [] m) ≡ m
copy_twice m h = ap (copy_into []) (copy_map m h) ∙ copy_map m h

-- An image whose detail fits an int16, if the output is one.
abbrev pub FitsOutput : Option ProtoOutput → Type 0
FitsOutput (some (image_output (some i))) = FitsInt16 i.detail
FitsOutput (some (image_output none)) = Unit
FitsOutput (some (text_output t)) = Unit
FitsOutput none = Unit

-- What is asked of a body: its metadata is a map, and its detail fits.
abbrev pub IsConvertible : Option ProtoVariant → Type 0
IsConvertible (some (tool_body (some p))) = IsMap p.metadata × FitsOutput p.output
IsConvertible (some (tool_body none)) = Unit
IsConvertible (some (text_body t)) = Unit
IsConvertible none = Unit

-- A body that converts to `b` and back, to itself.
abbrev pub IsConverted : Option ProtoVariant → MessageBody → Type 0
IsConverted v b = (validate b ≡ ok tt) × (to_proto_message_body b ≡ record { body = v })

output_back :
    (p : ProtoTool) (out : Option ProtoOutput) {tool : ToolOutputBody}
    → p.output ≡ out
    → IsMap p.metadata
    → FitsOutput out
    → with_output out (tool_start p) ≡ ok tool
    → IsConverted (some (tool_body (some p))) (tool_message tool)
unfolding validate to_proto_message_body
output_back p (some (text_output (some t))) o m f h =
    subst (λ tool. IsConverted (some (tool_body (some p))) (tool_message tool)) (ok-injective h)
      (refl, rw (copy_twice p.metadata m, ← o) refl)
output_back p (some (image_output (some i))) o m f h =
    subst (λ tool. IsConverted (some (tool_body (some p))) (tool_message tool)) (ok-injective h)
      (refl, rw (copy_twice p.metadata m, to_int16-eq_of_fits i.detail f, ← o) refl)
output_back p (some (text_output none)) o m f h = ground arith
output_back p (some (image_output none)) o m f h = ground arith
output_back p none o m f h = ground arith

variant_back :
    (v : Option ProtoVariant) {b : MessageBody}
    → IsConvertible v
    → variant_from_proto v ≡ ok b
    → IsConverted v b
unfolding validate to_proto_message_body
variant_back (some (text_body (some t))) c h =
    subst (IsConverted (some (text_body (some t)))) (ok-injective h) (refl, refl)
variant_back (some (tool_body (some p))) c h =
    let (tool, made, e) = bind-eq-ok (with_output p.output (tool_start p)) _ h in
    subst (IsConverted (some (tool_body (some p)))) (ok-injective e)
      (output_back p p.output refl c.0 c.1 made)
variant_back (some (text_body none)) c h = ground arith
variant_back (some (tool_body none)) c h = ground arith
variant_back none c h = ground arith

-- A body that is accepted, whose metadata is a map and whose detail fits an int16, is converted to
-- a body that Validate accepts and that is converted back to it.
pub from_proto-to_proto :
    (p : ProtoBody) {b : MessageBody}
    → IsConvertible p.body
    → from_proto_message_body (some p) ≡ ok b
    → IsConverted p.body b
unfolding from_proto_message_body
from_proto-to_proto p c h = variant_back p.body c h
