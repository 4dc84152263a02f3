-- ===== src/Http/Multipart.antt =====
-- asciinema/urllib_http_adapter.py, `MultipartFormdataEncoder`. `boundary` is `uuid4().hex`, a file
-- stands for what its `read` gives, and a number for its `str`.
use asciinema.Base.{Option, none, some, List, [], ◌∷◌, ◌++◌, Text, Bytes, chars}
use asciinema.Utf8.{append_encoded, encode}

-- A value of a field: `u` decodes a `bytes`.
pub data Value : Type 0 where
  str : Text → Value
  bytes : Bytes → Value
  number : Text → Value

abbrev pub Field : Type 0
Field = Text × Value

-- {name: (filename, file)}
abbrev pub File : Type 0
File = Text × (Text × Bytes)

abbrev pub crlf : Bytes
crlf = 13 ∷ 10 ∷ []

-- `for chunk, _ in …: body.write(chunk)`; a chunk that cannot be made raises.
unfoldable pub joined : List (Option Bytes) → Option Bytes
joined [] = some []
joined (c ∷ cs) = append_encoded c (joined cs)

-- What `encoder` makes of an optional text.
abbrev pub encoded : Option Text → Option Bytes
encoded none = none
encoded (some t) = encode t

module _ (utf8 : Bytes → Option Text) where
  -- `u(value)`, after `str` of a number.
  unfoldable pub u : Value → Option Text
  u (str t) = some t
  u (bytes b) = utf8 b
  u (number t) = some t

  -- The chunks of a field, and of a file, behind the line with the boundary.
  unfoldable pub field_chunks : Text → Value → List (Option Bytes)
  unfolding u
  field_chunks key value =
      encode (chars "content-disposition: form-data; name=\"" ++ key ++ b'"' ∷ crlf)
      ∷ encode crlf
      ∷ encoded (u value)
      ∷ []

  unfoldable pub file_chunks : Text → Text → Bytes → List (Option Bytes)
  file_chunks key filename content =
      encode (
        chars "content-disposition: form-data"
        ++ (chars "; name=\"" ++ key ++ b'"' ∷ [])
        ++ (chars "; filename=\"" ++ filename ++ b'"' ∷ crlf))
      ∷ encode (chars "content-type: application/octet-stream" ++ crlf)
      ∷ encode crlf
      ∷ some content
      ∷ []

  module _ (boundary : Text) where
    unfoldable pub open_part : Option Bytes
    open_part = encode (b'-' ∷ b'-' ∷ (boundary ++ crlf))

    unfoldable pub iter_files : List File → List (Option Bytes)
    unfolding open_part file_chunks
    iter_files [] = encode (b'-' ∷ b'-' ∷ (boundary ++ b'-' ∷ b'-' ∷ crlf)) ∷ []
    iter_files ((key, (filename, content)) ∷ files) =
        open_part ∷ (file_chunks key filename content ++ encode crlf ∷ iter_files files)

    unfoldable pub iter : List Field → List File → List (Option Bytes)
    unfolding open_part field_chunks iter_files
    iter [] files = iter_files files
    iter ((key, value) ∷ fields) files =
        open_part ∷ (field_chunks key value ++ encode crlf ∷ iter fields files)

    unfoldable pub content_type : Text
    content_type = chars "multipart/form-data; boundary=" ++ boundary

    -- The body that `MultipartFormdataEncoder.encode` returns.
    unfoldable pub body_of : List Field → List File → Option Bytes
    unfolding joined iter
    body_of fields files = joined (iter fields files)
