-- ===== src/Apperrors.antt =====
-- apperrors/errors.go: application errors, and Go's `error` values as the repository uses them.
use xx_federation_contracts.Base.{String, Option, none, some}
use Prim.Native.String.{◌++◌}

pub data Code : Type 0 where
  auth_unauthorized auth_dev_identity_missing config_invalid control_capacity_unavailable : Code
  control_host_unreachable control_invalid_argument control_runtime_unavailable : Code
  control_session_not_found coord_payload_too_large coord_invalid_argument : Code
  not_found_or_unauthorized not_implemented policy_denied storage_unavailable : Code

-- A non-nil `error`: `errors.New`, an `*Error` without and with a wrapped error, `fmt.Errorf` with
-- `%w` (its whole text and the wrapped error), and a collaborator's error with a denial code.
pub data GoError : Type 0 where
  plain : String → GoError
  app : Code → String → String → GoError
  app_wrap : Code → String → String → GoError → GoError
  wrapped : String → GoError → GoError
  denial : String → String → GoError

-- `err.Error()`
unfoldable pub message : GoError → String
message (plain text) = text
message (app code layer text) = text
message (app_wrap code layer text e) = text ++ (": " ++ message e)
message (wrapped text e) = text
message (denial code text) = text

-- `errors.Unwrap`; for an `*Error` its method.
unfoldable pub unwrap : GoError → Option GoError
unwrap (plain text) = none
unwrap (app code layer text) = none
unwrap (app_wrap code layer text e) = some e
unwrap (wrapped text e) = some e
unwrap (denial code text) = none

-- `New` and `Wrap`; `Wrap` of a nil error holds no error.
unfoldable pub new : Code → String → String → GoError
new code layer text = app code layer text

unfoldable pub wrap : Code → String → String → Option GoError → GoError
wrap code layer text none = app code layer text
wrap code layer text (some e) = app_wrap code layer text e

-- `errors.As(err, &appErr)`: the first `*Error` of the chain.
unfoldable pub as_app : GoError → Option GoError
as_app (plain text) = none
as_app (app code layer text) = some (app code layer text)
as_app (app_wrap code layer text e) = some (app_wrap code layer text e)
as_app (wrapped text e) = as_app e
as_app (denial code text) = none

-- `From`
unfoldable pub from : Option GoError → Option GoError
unfolding as_app wrap
from none = none
from (some e) = elim (as_app e) [
  | some found ↦ some found
  | none ↦ some (wrap storage_unavailable "storage" "storage unavailable" (some e))
]

-- `errors.As` to an error with an `ExchangeDenialCode` method, and its code.
unfoldable pub denial_code_of : GoError → Option String
denial_code_of (plain text) = none
denial_code_of (app code layer text) = none
denial_code_of (app_wrap code layer text e) = denial_code_of e
denial_code_of (wrapped text e) = denial_code_of e
denial_code_of (denial code text) = some code
