-- ===== src/Http/Request.antt =====
-- asciinema/urllib_http_adapter.py, `post` up to `urlopen`, and what asciinema/api.py gives it for an
-- upload. `base64` stands for `b64encode`, as a text, and `boundary` for `uuid4().hex`.
use asciinema.Base.{
  if◌then◌else◌, Bool, true, false, String, Option, none, some, List, [], ◌∷◌, ◌++◌, Text, Bytes,
  Dict, insert, chars,
}
use asciinema.Utf8.{encode}
use asciinema.Api.Agent.{upload_url, headers}
use asciinema.Http.Multipart.{Field, File, body_of, content_type}

pub record Request : Type 0 where
  pub url : Text
  pub body : Bytes
  pub headers : Dict Text
  pub method : String

-- An optional text in an f-string.
abbrev shown : Option Text → Text
shown none = chars "None"
shown (some t) = t

-- `if password`
abbrev truthy_text : Option Text → Bool
truthy_text none = false
truthy_text (some []) = false
truthy_text (some (c ∷ cs)) = true

module _ (base64 : Bytes → Text) (utf8 : Bytes → Option Text) (boundary : Text) where
  abbrev with_auth : Dict Text → Option Bytes → Option (Dict Text)
  with_auth headers none = none
  with_auth headers (some bytes) =
      some (insert "authorization" (chars "Basic " ++ base64 bytes) headers)

  -- The headers of the request; `encode` may raise.
  unfoldable pub headers_of : Dict Text → Option Text → Option Text → Option (Dict Text)
  unfolding insert encode content_type
  headers_of headers username password =
      let typed = insert "content-type" (content_type utf8 boundary) headers in
      if truthy_text password
      then with_auth typed (encode (shown username ++ b':' ∷ shown password))
      else some typed

  abbrev made : Text → Option Bytes → Option (Dict Text) → Option Request
  made url (some body) (some headers) =
      some (record { url = url; body = body; headers = headers; method = "POST" })
  made url _ _ = none

  unfoldable pub request_of :
      Text → List Field → List File → Dict Text → Option Text → Option Text → Option Request
  unfolding body_of headers_of
  request_of url fields files headers username password =
      made url (body_of utf8 boundary fields files) (headers_of headers username password)

  -- What `upload_asciicast` posts: `url`, `user` and `install_id` are those of `Api.__init__`.
  unfoldable pub upload_request : Text → Option Text → Text → Text → Bytes → Option Request
  unfolding request_of
  upload_request url user install_id user_agent cast =
      request_of (upload_url url) [] ((chars "asciicast", (chars "ascii.cast", cast)) ∷ [])
        (headers user_agent) user (some install_id)
