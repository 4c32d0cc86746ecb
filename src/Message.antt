-- ===== src/Message.antt =====
-- The message types of internal/state/types.go, and `Validate`. A pointer is an Option; the integer
-- types int16 and int32 are integers in their range; a Go map is its entries in key order.
pub mod Columns
pub mod Row
pub mod Roundtrip
pub mod Refused
pub mod Digest
use agent_state.Common.{ℕ, String, Option, none, some, List, is_some, ◌&&◌, not, if◌then◌else◌}
use agent_state.Common.Int.{ℤ}
use agent_state.Errors.{Uuid, Result, ok, err, plain}

-- time.Time, which the code only stores and copies.
abbrev pub Time : Type 0
Time = ℕ

abbrev pub Metadata : Type 0
Metadata = List (String × String)

pub record TextBody : Type 0 where
  pub text : String

pub record ToolTextOutput : Type 0 where
  pub text : String

pub record ToolImageOutput : Type 0 where
  pub external_url : String
  pub mime_type : String
  pub detail : ℤ
  pub width_px : ℤ
  pub height_px : ℤ
  pub sha256 : String

-- `metadata` is none for the nil map.
pub record ToolOutputBody : Type 0 where
  pub tool_name : String
  pub tool_call_id : String
  pub metadata : Option Metadata
  pub text : Option ToolTextOutput
  pub image : Option ToolImageOutput

pub record MessageBody : Type 0 where
  pub text : Option TextBody
  pub tool_output : Option ToolOutputBody

-- `role` is an int16.
pub record Message : Type 0 where
  pub id : Uuid
  pub conversation_id : Uuid
  pub role : ℤ
  pub kind : String
  pub body : MessageBody
  pub created_at : Time

pub record AppendMessageInput : Type 0 where
  pub role : ℤ
  pub kind : String
  pub body : MessageBody

-- `(*ToolOutputBody).validate`
unfoldable pub validate_tool : ToolOutputBody → Result (Unit {0})
validate_tool b =
    if is_some b.text && is_some b.image
    then err (plain "tool output has multiple variants")
    else if not (is_some b.text) && not (is_some b.image)
    then err (plain "tool output missing variant")
    else ok tt

-- The last step of `Validate`: a tool output, if there is one, is validated too.
abbrev validate_output : Option ToolOutputBody → Result (Unit {0})
validate_output none = ok tt
validate_output (some tool) = validate_tool tool

unfoldable pub validate : MessageBody → Result (Unit {0})
unfolding validate_tool
validate b =
    if is_some b.text && is_some b.tool_output
    then err (plain "message body has multiple variants")
    else if not (is_some b.text) && not (is_some b.tool_output)
    then err (plain "message body missing variant")
    else validate_output b.tool_output
