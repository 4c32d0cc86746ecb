-- ===== src/Message/Digest.antt =====
-- MarshalDeterministicJSON of internal/state/types.go: the value that is marshalled, with the
-- metadata as pairs sorted by key. encoding/json at this value is a parameter.
use Prim.Native.String.{String, compare}
use Prim.Native.Nat.{Ordering}
use agent_state.Common.{
  Bool, true, false, Option, none, some, List, [], ◌∷◌, map, length, ltb, if◌then◌else◌,
}
use text.Mathlib.Text.{◌==◌ as str_eq}
use agent_state.Errors.{Result}
use agent_state.Message.{
  Metadata, TextBody, ToolTextOutput, ToolImageOutput, ToolOutputBody, MessageBody,
}
use agent_state.Message.Columns.{Bytes}

-- The type `toolOutput` of the function; its types toolText and toolImage have the fields of
-- ToolTextOutput and ToolImageOutput.
pub record DigestTool : Type 0 where
  pub tool_name : String
  pub tool_call_id : String
  pub metadata : List (String × String)
  pub text : Option ToolTextOutput
  pub image : Option ToolImageOutput

-- `payload`
pub record DigestPayload : Type 0 where
  pub text : Option TextBody
  pub tool_output : Option DigestTool

-- json.Marshal of the payload, and the SHA-256 of bytes in hexadecimal digits.
pub record Digest : Type 0 where
  pub marshal : DigestPayload → Result Bytes
  pub sha256_hex : Bytes → String

-- Texts by their bytes.
abbrev pub leb_text : String → String → Bool
leb_text a b = elim (compare a b) [ Ordering.gt ↦ false | _ ↦ true ]

unfoldable pub insert_text : String → List String → List String
insert_text k [] = k ∷ []
insert_text k (j ∷ ks) = if leb_text k j then k ∷ j ∷ ks else j ∷ insert_text k ks

-- sort.Strings
unfoldable pub sort_texts : List String → List String
unfolding insert_text
sort_texts [] = []
sort_texts (k ∷ ks) = insert_text k (sort_texts ks)

-- `m[k]`, which is the empty text where there is no such key
abbrev pub value_at : String → Metadata → String
value_at k [] = ""
value_at k ((j, v) ∷ m) = if str_eq k j then v else value_at k m

-- The keys in the order in which the runtime ranges over the map, sorted, each with its value.
unfoldable pub sorted_metadata : Metadata → List (String × String)
unfolding sort_texts
sorted_metadata m = map (λ k. (k, value_at k m)) (sort_texts (map (λ e. e.0) m))

-- A nil map has no entries.
abbrev sorted_entries : Option Metadata → List (String × String)
sorted_entries none = []
sorted_entries (some m) = if ltb 0 (length m) then sorted_metadata m else []

abbrev pub digest_tool : ToolOutputBody → DigestTool
digest_tool b = record {
  tool_name = b.tool_name;
  tool_call_id = b.tool_call_id;
  metadata = sorted_entries b.metadata;
  text = b.text;
  image = b.image;
}

unfoldable pub digest_payload : MessageBody → DigestPayload
unfolding sorted_metadata
digest_payload b = record {
  text = b.text;
  tool_output = elim b.tool_output [ none ↦ none | some tool ↦ some (digest_tool tool) ];
}

-- `MarshalDeterministicJSON`
unfoldable pub marshal_deterministic_json : Digest → MessageBody → Result Bytes
unfolding digest_payload
marshal_deterministic_json digest b = digest.marshal (digest_payload b)
