-- ===== src/Rest/Echo/Errors.antt =====
-- CustomHTTPErrorHandler of echo-rest/option.go.
use candi_plugin.Base.{ℕ, [], ◌++◌, Option, none, some, if◌then◌else◌, nat_eq}
use candi_plugin.Go.Text.{Bytes, codes}
use candi_plugin.Candi.{Error}

-- An error: an *echo.HTTPError with its code, or another; each with the text of its Error.
pub data HandlerError : Type 0 where
  http_error : ℕ → Error → HandlerError
  other_error : Error → HandlerError

-- `Resource "%s %s" not found`
unfoldable pub resource_not_found : (method path : Bytes) → Bytes
resource_not_found method path =
    codes "Resource \"" ++ (method ++ (codes " " ++ (path ++ codes "\" not found")))

-- CustomHTTPErrorHandler: the code and the message of the response.
unfoldable pub custom_http_error_handler : (method path : Bytes) → Option HandlerError → ℕ × Bytes
custom_http_error_handler method path none = (500, [])
custom_http_error_handler method path (some (other_error text)) = (500, text)
custom_http_error_handler method path (some (http_error code text)) =
    (code, if nat_eq code 404 then resource_not_found method path else text)
