-- ===== src/Server/Status.antt =====
-- `toStatusError` of internal/server/server.go. The text of a status, which is the error's, is not
-- written out: a status is its code with the error.
use agent_state.Common.{◌≡◌, refl, ap, Option, none, some, ◌||◌, if◌then◌else◌}
use agent_state.Errors.{
  Sentinel, conversation_not_found, invalid_range_spec, message_not_found, duplicate_message,
  snapshot_not_found, Err, sentinel, no_rows, plain, wrap, with_id, external, errors_is,
}

-- The codes of google.golang.org/grpc/codes that the server uses.
pub data Code : Type 0 where
  not_found invalid_argument internal : Code

pub record StatusError : Type 0 where
  pub code : Code
  pub cause : Err

-- The switch.
abbrev status_code : Err → Code
status_code e =
    if errors_is e conversation_not_found
      || errors_is e message_not_found
      || errors_is e snapshot_not_found
    then not_found
    else if errors_is e invalid_range_spec || errors_is e duplicate_message
    then invalid_argument
    else internal

unfoldable pub to_status_error : Err → StatusError
to_status_error e = record { code = status_code e; cause = e }

-- What an error was made from, if that is a sentinel.
abbrev pub root : Err → Option Sentinel
root (sentinel s) = some s
root no_rows = none
root (plain m) = none
root (wrap m e) = root e
root (with_id e i) = root e
root (external m) = none

-- The code of each sentinel; other errors are internal.
abbrev pub code_of : Option Sentinel → Code
code_of (some conversation_not_found) = not_found
code_of (some message_not_found) = not_found
code_of (some snapshot_not_found) = not_found
code_of (some invalid_range_spec) = invalid_argument
code_of (some duplicate_message) = invalid_argument
code_of none = internal

-- The code of an error is that of the sentinel it was made from, however it was wrapped, and an
-- error made from none of them is internal; the error is passed on.
pub to_status_error_lem :
    (e : Err) → to_status_error e ≡ record { code = code_of (root e); cause = e }
unfolding to_status_error
to_status_error_lem (sentinel conversation_not_found) = refl
to_status_error_lem (sentinel message_not_found) = refl
to_status_error_lem (sentinel snapshot_not_found) = refl
to_status_error_lem (sentinel invalid_range_spec) = refl
to_status_error_lem (sentinel duplicate_message) = refl
to_status_error_lem no_rows = refl
to_status_error_lem (plain m) = refl
to_status_error_lem (wrap m e) =
    ap (λ (s : StatusError). record { code = s.code; cause = wrap m e }) (to_status_error_lem e)
to_status_error_lem (with_id e i) =
    ap (λ (s : StatusError). record { code = s.code; cause = with_id e i }) (to_status_error_lem e)
to_status_error_lem (external m) = refl
