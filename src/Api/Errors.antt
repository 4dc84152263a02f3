-- ===== src/Api/Errors.antt =====
-- asciinema/api.py: warnings and errors of an upload.
use asciinema.Base.{
  ℕ, ◌==◌, ◌||◌, false, String, str_eq, Option, none, some, [], ◌∷◌, Text, Bytes, Dict, lookup,
  insert, lookup-insert, ◌≡◌, refl, ◌∙◌, if_rule,
}
use asciinema.Asciicast.Json.{Json}
use asciinema.Api.{
  Reply, answered, http_error, url_error, Body, decoded, undecoded, response, Uploaded, json_result,
  url_result, attribute_error, parse_headers, decode_response, post, handle_error, is_json, loaded,
  result_of, of_posted, upload_asciicast,
}

module _ (lower : String → String)
    (lowers : (k : String) → str_eq (lower k) "Warning" ≡ false) where
  parse_headers-lookup :
      (headers more : Dict Text)
      → lookup "Warning" headers ≡ none
      → lookup "Warning" (parse_headers lower headers more) ≡ none
  unfolding parse_headers
  parse_headers-lookup headers [] h = h
  parse_headers-lookup headers ((k, v) ∷ more) h =
      parse_headers-lookup (insert (lower k) v headers) more
        (lookup-insert (lower k) "Warning" v headers ∙ rw (lowers k) h)

-- Where an upload returns, it returns no warning.
abbrev pub IsUnwarned : Uploaded → Type 0
IsUnwarned (json_result result warning) = warning ≡ none
IsUnwarned (url_result body warning) = warning ≡ none
IsUnwarned _ = Unit

loaded-IsUnwarned :
    (o : Option Json) (warning : Option Text) → warning ≡ none → IsUnwarned (loaded o warning)
unfolding loaded
loaded-IsUnwarned none warning h = tt
loaded-IsUnwarned (some result) warning h = h

handle_error-IsUnwarned :
    (replaced : Bytes → Text) (status : ℕ) (body : Body)
    → IsUnwarned (handle_error replaced status body)
unfolding handle_error
handle_error-IsUnwarned replaced status (decoded body) = tt
handle_error-IsUnwarned replaced status (undecoded body) = tt

module _ (lower : String → String) (utf8 : Bytes → Option Text) (replaced : Bytes → Text)
    (loads : Body → Option Json) where
  response-IsUnwarned :
      (status : ℕ) (headers : Dict Text) (body : Body)
      → lookup "Warning" headers ≡ none
      → IsUnwarned (of_posted lower utf8 replaced loads (response status headers body))
  unfolding of_posted result_of
  response-IsUnwarned status headers body h =
      if_rule IsUnwarned ((status == 200) || (status == 201)) _ _
        (λ e.
          if_rule IsUnwarned (is_json (lookup "content-type" headers)) _
            (url_result body (lookup "Warning" headers))
            (λ k. loaded-IsUnwarned (loads body) (lookup "Warning" headers) h) (λ k. h))
        λ e. handle_error-IsUnwarned replaced status body

  decode_response-IsUnwarned :
      (status : ℕ) (headers : Dict Text) (body : Option Text)
      → lookup "Warning" headers ≡ none
      → IsUnwarned (of_posted lower utf8 replaced loads (decode_response status headers body))
  unfolding decode_response of_posted
  decode_response-IsUnwarned status headers none h = tt
  decode_response-IsUnwarned status headers (some body) h =
      response-IsUnwarned status headers (decoded body) h

-- If `lower` never gives `Warning`, then no upload returns a warning, whichever headers the server
-- sends, that of this name included.
pub upload_asciicast-IsUnwarned :
    (lower : String → String) (utf8 : Bytes → Option Text) (replaced : Bytes → Text)
    (loads : Body → Option Json) (reply : Reply)
    → ((k : String) → str_eq (lower k) "Warning" ≡ false)
    → IsUnwarned (upload_asciicast lower utf8 replaced loads reply)
unfolding upload_asciicast post of_posted lookup
upload_asciicast-IsUnwarned lower utf8 replaced loads (answered status headers body) lowers =
    decode_response-IsUnwarned lower utf8 replaced loads status (parse_headers lower [] headers)
      (utf8 body) (parse_headers-lookup lower lowers [] headers refl)
upload_asciicast-IsUnwarned lower utf8 replaced loads (http_error code body) lowers =
    response-IsUnwarned lower utf8 replaced loads code [] (undecoded body) refl
upload_asciicast-IsUnwarned lower utf8 replaced loads url_error lowers = tt
upload_asciicast-IsUnwarned lower utf8 replaced loads Reply.os_error lowers = tt

-- A server that answers, with a text that can be decoded, by another status than 200 and 201 and
-- without an HTTP error, makes the upload raise an `AttributeError` in place of an `APIError`.
pub upload_asciicast-attribute_error :
    (lower : String → String) (utf8 : Bytes → Option Text) (replaced : Bytes → Text)
    (loads : Body → Option Json) (status : ℕ) (headers : Dict Text) (body : Bytes) (t : Text)
    → utf8 body ≡ some t
    → (status == 200) || (status == 201) ≡ false
    → upload_asciicast lower utf8 replaced loads (answered status headers body) ≡ attribute_error
unfolding upload_asciicast post of_posted decode_response handle_error
upload_asciicast-attribute_error lower utf8 replaced loads status headers body t h k =
    rw (h, k) refl
