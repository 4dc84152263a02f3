-- ===== src/Commands/Upload/Exits.antt =====
-- asciinema/commands/upload.py: how an upload ends, by the answer of the server.
use asciinema.Base.{
  ℕ, ◌==◌, ◌||◌, leb, if◌then◌else◌, Bool, true, [], ◌∷◌, Text, Bytes, ◌≡◌, ◌≤◌, ◌<◌, ◌≢◌,
}
use asciinema.Asciicast.Json.{Json}
use asciinema.Api.{
  Reply, answered, http_error, url_error, Problem, invalid_request, invalid_install_id, no_endpoint,
  too_large, invalid_asciicast, maintenance, temporary, http_status, not_connected,
}
use asciinema.Http.Request.{Request}
use asciinema.Commands.Upload.{failed, retry_later, broken_off, Ended, exits, raises}

-- The command ends without an exception only with status 0.
abbrev pub ExitsWith : Bool → Ended → Type 0
ExitsWith ok (exits lines code) = (code ≡ 0) × (ok ≡ true)
ExitsWith ok (raises lines) = Unit

-- The problem that the code of an HTTP error stands for.
pub data StandsFor (code : ℕ) (body : Text) : Problem → Type 0 where
  bad_request : code ≡ 400 → StandsFor code body (invalid_request body)
  unauthorized : code ≡ 401 → StandsFor code body invalid_install_id
  not_found : code ≡ 404 → StandsFor code body no_endpoint
  entity_too_large : code ≡ 413 → StandsFor code body too_large
  unprocessable : code ≡ 422 → StandsFor code body (invalid_asciicast body)
  unavailable : code ≡ 503 → StandsFor code body maintenance
  server_error : 500 ≤ code → code ≢ 503 → StandsFor code body temporary
  other :
      code < 500
      → code ≢ 400
      → code ≢ 401
      → code ≢ 404
      → code ≢ 413
      → code ≢ 422
      → StandsFor code body (http_status code)

-- What the command makes of a file and of the answer to the request.
abbrev pub Meets : (Bytes → Text) → Reply → Ended → Type 0
Meets replaced (answered status headers body) r = ExitsWith ((status == 200) || (status == 201)) r
Meets replaced (http_error code body) r =
    (p : Problem) × StandsFor code (replaced body) p
    × (r ≡ exits (failed p ∷ (if leb 500 code then retry_later ∷ [] else [])) 1)
Meets replaced Reply.os_error r = r ≡ exits (broken_off ∷ []) 1
Meets replaced url_error r = r ≡ exits (failed not_connected ∷ retry_later ∷ []) 1

-- `HTTPError` is raised for none of the statuses of success.
abbrev pub IsError : Reply → Type 0
IsError (http_error code body) = 300 ≤ code
IsError _ = Unit
