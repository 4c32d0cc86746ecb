-- ===== src/Config.antt =====
-- internal/config/config.go, with os.Getenv as a parameter.
use agent_state.Common.{String, is_empty_text, if◌then◌else◌}
use agent_state.Errors.{Result, ok, err, plain}

pub record Config : Type 0 where
  pub grpc_address : String
  pub database_url : String

-- `FromEnv`
unfoldable pub from_env : (String → String) → Result Config
from_env getenv =
    let address = getenv "GRPC_ADDRESS" in
    let url = getenv "DATABASE_URL" in
    if is_empty_text url
    then err (plain "DATABASE_URL must be set")
    else ok (record {
      grpc_address = if is_empty_text address then ":50051" else address;
      database_url = url;
    })
