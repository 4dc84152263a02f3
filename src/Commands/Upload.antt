-- ===== src/Commands/Upload.antt =====
-- asciinema/commands/upload.py and auth.py, over asciinema/api.py and urllib_http_adapter.py. The
-- server is what answers a request; a file that cannot be opened or read has no content.
pub mod Exits
mod Tests
use mathlib.Core.Path.{subst}
use asciinema.Base.{
  ℕ, ◌==◌, ◌||◌, leb, if◌then◌else◌, Bool, true, false, not, String, Option, none, some, List, [],
  ◌∷◌, ◌++◌, Text, Bytes, chars, ℤ, pos, negsuc, ◌≡◌, refl, ap, ◌∙◌, ◌⊎◌, inl, inr, arith, ==_iff,
  ◌≤◌, if_rule, Bool-cases,
}
use asciinema.Asciicast.Json.{
  Json, null, bool, int, float, str, arr, obj, nil, cons, Fields, end, field, get_field,
}
use asciinema.Api.{
  Reply, answered, http_error, url_error, Body, decoded, undecoded, Problem, not_connected,
  Uploaded, json_result, url_result, api_error, attribute_error, unicode_error, json_error,
  upload_asciicast, post, decode_response, of_posted, result_of, handle_error, problem_of, loaded,
  is_json, response, parse_headers,
}
use asciinema.Api.Agent.{auth_url}
use asciinema.Http.Request.{Request, upload_request}

-- A line that the command prints.
pub data Line : Type 0 where
  warning : Text → Line
  message : Json → Line
  url : Body → Line
  failed : Problem → Line
  not_read broken_off retry_later : Line

-- The exit status, or an exception that is not caught; behind the lines.
pub data Ended : Type 0 where
  exits : List Line → ℕ → Ended
  raises : List Line → Ended

-- `if warn: self.print_warning(warn)`
unfoldable pub warned : Option Text → List Line
warned none = []
warned (some []) = []
warned (some (c ∷ cs)) = warning (c ∷ cs) ∷ []

-- Python's `bool` of a value.
unfoldable pub truthy : Json → Bool
truthy null = false
truthy (bool b) = b
truthy (int (pos n)) = not (n == 0)
truthy (int (negsuc n)) = true
truthy (float (pos n)) = not (n == 0)
truthy (float (negsuc n)) = true
truthy (str []) = false
truthy (str (c ∷ cs)) = true
truthy (arr nil) = false
truthy (arr (cons j js)) = true
truthy (obj end) = false
truthy (obj (field k v d)) = true

unfoldable pub message_or : Option Json → Option Json → Option Json
unfolding truthy
message_or none second = second
message_or (some m) second = if truthy m then some m else second

-- `result.get("message") or result["url"]`: a `KeyError` or, without a `get`, an `AttributeError`.
unfoldable pub result_line : Json → Option Json
unfolding message_or get_field
result_line (obj d) = message_or (get_field "message" d) (get_field "url" d)
result_line _ = none

unfoldable pub printed : List Line → Option Json → Ended
printed lines none = raises lines
printed lines (some j) = exits (lines ++ message j ∷ []) 0

unfoldable pub ended : Uploaded → Ended
unfolding warned result_line printed
ended (json_result result warn) = printed (warned warn) (result_line result)
ended (url_result body warn) = exits (warned warn ++ url body ∷ []) 0
ended (api_error problem retryable) =
    exits (failed problem ∷ (if retryable then retry_later ∷ [] else [])) 1
ended Uploaded.os_error = exits (broken_off ∷ []) 1
ended attribute_error = raises []
ended unicode_error = raises []
ended json_error = raises []

module _ (lower : String → String) (utf8 : Bytes → Option Text) (replaced : Bytes → Text)
    (loads : Body → Option Json) (base64 : Bytes → Text) (boundary : Text)
    (server : Request → Reply) where
  -- A request that cannot be encoded raises a `UnicodeEncodeError`.
  unfoldable pub sent : Option Request → Ended
  unfolding ended upload_asciicast
  sent none = raises []
  sent (some request) = ended (upload_asciicast lower utf8 replaced loads (server request))

  -- `UploadCommand.execute`
  unfoldable pub execute : Text → Option Text → Text → Text → Option Bytes → Ended
  unfolding sent upload_request
  execute api_url user install_id user_agent none = exits (not_read ∷ []) 1
  execute api_url user install_id user_agent (some cast) =
      sent (upload_request base64 utf8 boundary api_url user install_id user_agent cast)

-- What `AuthCommand.execute` prints. `hostname` is that of `urlparse`, in an f-string.
unfoldable pub auth_text : Text → Text → Text → Text
auth_text hostname api_url install_id =
    chars "Open the following URL in a web browser to link your install ID with your "
    ++ (hostname
        ++ (chars " user account:\n\n"
            ++ (auth_url api_url install_id
                ++ (chars
                      "\n\nThis will associate all recordings uploaded from this machine (past and future ones) to your account, and allow you to manage them (change title/theme, delete) at "
                    ++ (hostname ++ b'.' ∷ [])))))
