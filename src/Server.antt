-- ===== src/Server.antt =====
-- internal/server: the requests of the gRPC service as calls of internal/state. The messages of
-- the generated protobuf package are what their getters return: a message that may be absent is
-- an Option, and so is a oneof, whose variants are the generated wrapper types.
pub mod Converter
pub mod Bodies
pub mod Roles
pub mod Status
pub mod Handlers
pub mod Listings
pub mod Paging
pub mod Paged
pub mod Foreign
pub mod Refusals
use agent_state.Common.{String, Option}
use agent_state.Common.Int.{ℤ}
use agent_state.Message.{Metadata}

pub record ProtoText : Type 0 where
  pub text : String

pub record ProtoImage : Type 0 where
  pub external_url : String
  pub mime_type : String
  pub detail : ℤ
  pub width_px : ℤ
  pub height_px : ℤ
  pub sha256 : String

-- The oneof `output`; the pointer that a variant holds may be nil.
pub data ProtoOutput : Type 0 where
  text_output : Option ProtoText → ProtoOutput
  image_output : Option ProtoImage → ProtoOutput

pub record ProtoTool : Type 0 where
  pub tool_name : String
  pub tool_call_id : String
  pub metadata : Metadata
  pub output : Option ProtoOutput

-- The oneof `body`
pub data ProtoVariant : Type 0 where
  text_body : Option ProtoText → ProtoVariant
  tool_body : Option ProtoTool → ProtoVariant

pub record ProtoBody : Type 0 where
  pub body : Option ProtoVariant

-- `role` is an enum, which is an int32.
pub record ProtoInput : Type 0 where
  pub role : ℤ
  pub kind : String
  pub body : Option ProtoBody
