-- ===== src/Api.antt =====
-- asciinema/api.py, `upload_asciicast`, over `post` of asciinema/urllib_http_adapter.py. `urlopen`
-- gives a reply; `lower` stands for `str.lower`, `utf8` for `bytes.decode` where errors raise,
-- `replaced` where they are replaced, and `loads` for `json.loads`.
pub mod Errors
pub mod Agent
mod Tests
use asciinema.Base.{
  ℕ, leb, ◌==◌, ◌||◌, if◌then◌else◌, Bool, true, false, String, Option, none, some, List, [], ◌∷◌,
  Text, Bytes, bytes_eq, chars, Dict, lookup, insert, take,
}
use asciinema.Asciicast.Json.{Json}

-- What `urlopen` gives or raises, the reading of the answer included. `os_error` is an `OSError` that
-- is neither a `URLError` nor a `RemoteDisconnected`, such as a connection that is reset or too slow.
pub data Reply : Type 0 where
  answered : ℕ → Dict Text → Bytes → Reply
  http_error : ℕ → Bytes → Reply
  url_error os_error : Reply

pub data Body : Type 0 where
  decoded : Text → Body
  undecoded : Bytes → Body

pub data Posted : Type 0 where
  response : ℕ → Dict Text → Body → Posted
  connection_error : Posted
  os_error : Posted
  decode_error : Posted

pub data Problem : Type 0 where
  invalid_request invalid_asciicast : Text → Problem
  invalid_install_id no_endpoint too_large maintenance temporary not_connected : Problem
  http_status : ℕ → Problem

pub data Uploaded : Type 0 where
  json_result : Json → Option Text → Uploaded
  url_result : Body → Option Text → Uploaded
  api_error : Problem → Bool → Uploaded
  os_error attribute_error unicode_error json_error : Uploaded

-- `{k.lower(): v for k, v in …}`, with the headers so far.
unfoldable pub parse_headers : (String → String) → Dict Text → Dict Text → Dict Text
unfolding insert
parse_headers lower headers [] = headers
parse_headers lower headers ((k, v) ∷ more) = parse_headers lower (insert (lower k) v headers) more

unfoldable pub decode_response : ℕ → Dict Text → Option Text → Posted
decode_response status headers none = decode_error
decode_response status headers (some body) = response status headers (decoded body)

unfoldable pub post : (String → String) → (Bytes → Option Text) → Reply → Posted
unfolding parse_headers decode_response
post lower utf8 (answered status headers body) =
    decode_response status (parse_headers lower [] headers) (utf8 body)
post lower utf8 (http_error code body) = response code [] (undecoded body)
post lower utf8 url_error = connection_error
post lower utf8 Reply.os_error = Posted.os_error

unfoldable pub problem_of : ℕ → Text → Problem
problem_of status body =
    if status == 400
    then invalid_request body
    else if status == 401
    then invalid_install_id
    else if status == 404
    then no_endpoint
    else if status == 413
    then too_large
    else if status == 422
    then invalid_asciicast body
    else if status == 503
    then maintenance
    else if leb 500 status
    then temporary
    else http_status status

-- `body.decode`, which a `str` does not have, comes before the status is looked at.
unfoldable pub handle_error : (Bytes → Text) → ℕ → Body → Uploaded
unfolding problem_of
handle_error replaced status (decoded body) = attribute_error
handle_error replaced status (undecoded body) =
    api_error (problem_of status (replaced body)) (leb 500 status)

abbrev json_type : Text
json_type = chars "application/json"

unfoldable pub is_json : Option Text → Bool
unfolding bytes_eq
is_json none = false
is_json (some content_type) = bytes_eq (take 16 content_type) json_type

unfoldable pub loaded : Option Json → Option Text → Uploaded
loaded none warning = json_error
loaded (some result) warning = json_result result warning

unfoldable pub result_of : (Body → Option Json) → Dict Text → Body → Uploaded
unfolding is_json loaded lookup
result_of loads headers body =
    if is_json (lookup "content-type" headers)
    then loaded (loads body) (lookup "Warning" headers)
    else url_result body (lookup "Warning" headers)

module _ (lower : String → String) (utf8 : Bytes → Option Text) (replaced : Bytes → Text)
    (loads : Body → Option Json) where
  unfoldable pub of_posted : Posted → Uploaded
  unfolding handle_error result_of
  of_posted connection_error = api_error not_connected true
  of_posted decode_error = unicode_error
  of_posted Posted.os_error = Uploaded.os_error
  of_posted (response status headers body) =
      if (status == 200) || (status == 201)
      then result_of loads headers body
      else handle_error replaced status body

  unfoldable pub upload_asciicast : Reply → Uploaded
  unfolding post of_posted
  upload_asciicast reply = of_posted (post lower utf8 reply)
