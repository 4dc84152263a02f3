-- ===== src/Commands/Upload/Tests.antt =====
-- An upload to a server that is down.
use asciinema.Base.{String, Option, none, some, [], ◌∷◌, Text, Bytes, chars}
use asciinema.Asciicast.Json.{Json}
use asciinema.Api.{Reply, http_error, Body}
use asciinema.Http.Request.{Request}

abbrev lower : String → String
lower k = k

abbrev utf8 : Bytes → Option Text
utf8 bytes = some bytes

abbrev replaced : Bytes → Text
replaced bytes = bytes

abbrev loads : Body → Option Json
loads body = none

abbrev base64 : Bytes → Text
base64 bytes = chars "dTpp"

abbrev server : Request → Reply
server request = http_error 503 []

abbrev request : Request
request = record {
  url = chars "https://a/api/asciicasts";
  body =
      chars
        "--ab\r\ncontent-disposition: form-data; name=\"asciicast\"; filename=\"ascii.cast\"\r\ncontent-type: application/octet-stream\r\n\r\n{}\r\n--ab--\r\n";
  headers =
      ("user-agent", chars "asciinema/2")
      ∷ ("accept", chars "application/json")
      ∷ ("content-type", chars "multipart/form-data; boundary=ab")
      ∷ ("authorization", chars "Basic dTpp")
      ∷ [];
  method = "POST";
}
