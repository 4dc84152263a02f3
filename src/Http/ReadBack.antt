-- ===== src/Http/ReadBack.antt =====
-- asciinema/urllib_http_adapter.py: the parts of an encoded body can be read back.
use asciinema.Base.{
  chars, starts, occurs, ℕ, zero, ◌==◌, ◌||◌, ◌&&◌, leb, if◌then◌else◌, Bool, true, false, Option,
  none, some, List, [], ◌∷◌, ◌++◌, map, drop, append_assoc, append-nil, All, Text, Bytes, bytes_eq,
  ◌≡◌, refl, sym, ap, ◌∙◌, arith, ltb,
}
use asciinema.Utf8.{append_encoded, encode, encode_char}
use asciinema.Http.Multipart.{
  Value, str, bytes, number, encoded, u, Field, File, crlf, joined, field_chunks, file_chunks,
  open_part, iter_files, iter, body_of,
}
use asciinema.Http.Split.{split, split-append, split-last}

-- What `uuid4().hex` is made of.
abbrev is_hex : ℕ → Bool
is_hex c = (leb b'0' c && leb c b'9') || (leb b'a' c && leb c b'f')

abbrev pub IsHex : Text → Type 0
IsHex = All (λ c. is_hex c ≡ true)

-- What stands between two parts.
abbrev pub delimiter : Text → Bytes
delimiter boundary = 13 ∷ 10 ∷ b'-' ∷ b'-' ∷ boundary

abbrev onto : Bytes → Option (List Bytes) → Option (List Bytes)
onto c none = none
onto c (some cs) = some (c ∷ cs)

-- Each piece but the last is a part behind a line break; the last one closes the body.
unfoldable pub read_pieces : List Bytes → Option (List Bytes)
unfolding starts bytes_eq
read_pieces [] = none
read_pieces (p ∷ []) = if bytes_eq p (b'-' ∷ b'-' ∷ crlf) then some [] else none
read_pieces (p ∷ (q ∷ ps)) =
    let rest = read_pieces (q ∷ ps) in if starts crlf p then onto (drop 2 p) rest else none

abbrev behind_first : List Bytes → Option (List Bytes)
behind_first ([] ∷ ps) = read_pieces ps
behind_first _ = none

-- The contents of the parts, by the delimiter alone.
unfoldable pub read_body : Text → Bytes → Option (List Bytes)
unfolding read_pieces split
read_body boundary body = behind_first (split (delimiter boundary) zero (crlf ++ body))

abbrev pub all : List (Option Bytes) → Option (List Bytes)
all [] = some []
all (none ∷ cs) = none
all (some c ∷ cs) = onto c (all cs)

append_encoded_assoc :
    (a b c : Option Bytes)
    → append_encoded a (append_encoded b c) ≡ append_encoded (append_encoded a b) c
append_encoded_assoc (some a) (some b) (some c) = ap some (sym (append_assoc a b c))
append_encoded_assoc none b c = refl
append_encoded_assoc (some a) none c = refl
append_encoded_assoc (some a) (some b) none = refl

append_encoded-nil : (o : Option Bytes) → o ≡ append_encoded (some []) o
append_encoded-nil none = refl
append_encoded-nil (some b) = refl

joined-append :
    (xs ys : List (Option Bytes)) → joined (xs ++ ys) ≡ append_encoded (joined xs) (joined ys)
unfolding joined
joined-append [] ys = append_encoded-nil (joined ys)
joined-append (x ∷ xs) ys =
    ap (append_encoded x) (joined-append xs ys) ∙ append_encoded_assoc x (joined xs) (joined ys)

-- The boundary is ASCII, and has no line break.
encode_char-hex : (c : ℕ) → is_hex c ≡ true → encode_char c ≡ some (c ∷ [])
unfolding encode_char
encode_char-hex c h = let small : ltb c 0x80 ≡ true = ground arith in rw small refl

encode-IsHex :
    (t : Text)
    → IsHex t
    → (rest : Text) → encode (t ++ rest) ≡ append_encoded (some t) (encode rest)
unfolding encode
encode-IsHex [] h rest = append_encoded-nil (encode rest)
encode-IsHex (c ∷ cs) (h, k) rest =
    rw (encode_char-hex c h, encode-IsHex cs k rest)
      (append_encoded_assoc (some (c ∷ [])) (some cs) (encode rest))

IsHex-once : (t : Text) → IsHex t → All (λ d. (d == 13) ≡ false) t
IsHex-once [] h = tt
IsHex-once (c ∷ cs) (h, k) = (ground arith, IsHex-once cs k)

module _ (utf8 : Bytes → Option Text) (boundary : Text) where
  -- A value as bytes: text and numbers in UTF-8, bytes by way of the text that they decode to.
  abbrev value_bytes : Value → Option Bytes
  value_bytes (str t) = encode t
  value_bytes (number t) = encode t
  value_bytes (bytes b) = elim (utf8 b) [ none ↦ none | some t ↦ encode t ]

  -- What the body should have between the lines with the boundary, line by line. For a field: a
  -- header with its name, an empty line and its value.
  abbrev field_part : Text → Value → List (Option Bytes)
  field_part key value =
      encode (chars "content-disposition: form-data; name=\"" ++ key ++ b'"' ∷ crlf)
      ∷ some crlf
      ∷ value_bytes value
      ∷ []

  -- For a file: a header with both names, the type of its content, an empty line and its bytes.
  abbrev file_part : Text → Text → Bytes → List (Option Bytes)
  file_part key filename content =
      encode (
        chars "content-disposition: form-data"
        ++ (chars "; name=\"" ++ key ++ b'"' ∷ [])
        ++ (chars "; filename=\"" ++ filename ++ b'"' ∷ crlf))
      ∷ some (chars "content-type: application/octet-stream" ++ crlf)
      ∷ some crlf
      ∷ some content
      ∷ []

  unfoldable pub parts : List Field → List File → List (List (Option Bytes))
  parts ((key, value) ∷ fields) files = field_part key value ∷ parts fields files
  parts [] ((key, (filename, content)) ∷ files) = file_part key filename content ∷ parts [] files
  parts [] [] = []

  value_bytes-u : (value : Value) → encoded (u utf8 value) ≡ value_bytes value
  unfolding u
  value_bytes-u (str t) = refl
  value_bytes-u (number t) = refl
  value_bytes-u (bytes b) =
      elim (utf8 b) as (λ o. encoded o ≡ elim o [ none ↦ none | some t ↦ encode t ]) [
        | none ↦ refl
        | some t ↦ refl
      ]

  field_chunks-part :
      (key : Text) (value : Value) → field_chunks utf8 key value ≡ field_part key value
  unfolding field_chunks encode encode_char
  field_chunks-part key value =
      ap
        (λ v.
          encode (chars "content-disposition: form-data; name=\"" ++ key ++ b'"' ∷ crlf)
          ∷ some crlf
          ∷ v
          ∷ [])
        (value_bytes-u value)

  file_chunks-part :
      (key filename : Text) (content : Bytes)
      → file_chunks utf8 key filename content ≡ file_part key filename content
  unfolding file_chunks encode encode_char
  file_chunks-part key filename content = refl

  abbrev last_line : Option Bytes
  last_line = encode (b'-' ∷ b'-' ∷ (boundary ++ b'-' ∷ b'-' ∷ crlf))

  abbrev framed : List (List (Option Bytes)) → List (Option Bytes)
  framed [] = last_line ∷ []
  framed (p ∷ ps) = open_part utf8 boundary ∷ (p ++ encode crlf ∷ framed ps)

  one_framed :
      {c p r q : List (Option Bytes)}
      → c ≡ p
      → r ≡ q
      → open_part utf8 boundary ∷ (c ++ encode crlf ∷ r)
        ≡ open_part utf8 boundary ∷ (p ++ encode crlf ∷ q)
  one_framed e h = cc

  iter-framed :
      (fields : List Field) (files : List File)
      → iter utf8 boundary fields files ≡ framed (parts fields files)
  unfolding iter iter_files parts
  iter-framed [] [] = refl
  iter-framed [] ((key, (filename, content)) ∷ files) =
      one_framed (file_chunks-part key filename content) (iter-framed [] files)
  iter-framed ((key, value) ∷ fields) files =
      one_framed (field_chunks-part key value) (iter-framed fields files)

  -- What follows a delimiter, in the bytes of a body.
  abbrev framed_bytes : List Bytes → Bytes
  framed_bytes [] = b'-' ∷ b'-' ∷ crlf
  framed_bytes (c ∷ cs) = crlf ++ (c ++ (delimiter boundary ++ framed_bytes cs))

  all-cons :
      (o : Option Bytes) (os : List (Option Bytes)) (cs : List Bytes)
      → all (o ∷ os) ≡ some cs
      → (c : Bytes) × (ds : List Bytes) × (o ≡ some c) × (all os ≡ some ds) × (cs ≡ c ∷ ds)
  all-cons none os cs h = absurd cc
  all-cons (some c) os cs h =
      elim (all os)
          as (λ r.
            onto c r ≡ some cs
            → (d : Bytes) × (ds : List Bytes) × (some c ≡ some d) × (r ≡ some ds) × (cs ≡ d ∷ ds)) [
              | none ↦ λ k. absurd cc
              | some ds ↦ λ k. (c, ds, refl, refl, cc)
            ]
        h

  hex_line :
      IsHex boundary
      → (rest : Text) → encode rest ≡ some rest
      → encode (b'-' ∷ b'-' ∷ (boundary ++ rest)) ≡ some (b'-' ∷ b'-' ∷ (boundary ++ rest))
  unfolding encode encode_char
  hex_line hex rest h = rw (encode-IsHex boundary hex rest, h) refl

  crlf_lem : encode crlf ≡ some crlf
  unfolding encode encode_char
  crlf_lem = refl

  last_lem : encode (b'-' ∷ b'-' ∷ crlf) ≡ some (b'-' ∷ b'-' ∷ crlf)
  unfolding encode encode_char
  last_lem = refl

  joined-framed :
      IsHex boundary
      → (ps : List (List (Option Bytes))) (cs : List Bytes) → all (map joined ps) ≡ some cs
      → joined (framed ps) ≡ some (b'-' ∷ b'-' ∷ (boundary ++ framed_bytes cs))
  unfolding joined open_part
  joined-framed hex [] [] h =
      rw (hex_line hex (b'-' ∷ b'-' ∷ crlf) last_lem)
        (ap some (append-nil (b'-' ∷ b'-' ∷ (boundary ++ b'-' ∷ b'-' ∷ crlf))))
  joined-framed hex [] (c ∷ cs) h = absurd cc
  joined-framed hex (p ∷ ps) cs h =
      let (c, ds, e, k, f) = all-cons (joined p) (map joined ps) cs h in
      let tail : joined (p ++ encode crlf ∷ framed ps)
          ≡ some (c ++ (delimiter boundary ++ framed_bytes ds)) =
        joined-append p (encode crlf ∷ framed ps)
        ∙ rw (e, crlf_lem, joined-framed hex ps ds k) refl in
      rw (tail, hex_line hex crlf crlf_lem, f)
        (ap (λ t. some (b'-' ∷ b'-' ∷ t))
          (append_assoc boundary crlf (c ++ (delimiter boundary ++ framed_bytes ds))))

  abbrev pieces : List Bytes → List Bytes
  pieces [] = (b'-' ∷ b'-' ∷ crlf) ∷ []
  pieces (c ∷ cs) = (crlf ++ c) ∷ pieces cs

  split-framed_bytes :
      IsHex boundary
      → (cs : List Bytes) → All (λ c. occurs (delimiter boundary) (crlf ++ c) ≡ false) cs
      → split (delimiter boundary) zero (framed_bytes cs) ≡ pieces cs
  unfolding occurs starts
  split-framed_bytes hex [] h =
      split-last 13 (10 ∷ b'-' ∷ b'-' ∷ boundary) (refl, (refl, (refl, IsHex-once boundary hex)))
        (b'-' ∷ b'-' ∷ crlf) refl
  split-framed_bytes hex (c ∷ cs) (h, k) =
      split-append 13 (10 ∷ b'-' ∷ b'-' ∷ boundary) (refl, (refl, (refl, IsHex-once boundary hex)))
        (crlf ++ c) (framed_bytes cs) h
      ∙ ap (λ r. (crlf ++ c) ∷ r) (split-framed_bytes hex cs k)

  read_pieces-pieces : (cs : List Bytes) → read_pieces (pieces cs) ≡ some cs
  unfolding read_pieces starts bytes_eq
  read_pieces-pieces [] = refl
  read_pieces-pieces (c ∷ []) = refl
  read_pieces-pieces (c ∷ (d ∷ cs)) = ap (onto c) (read_pieces-pieces (d ∷ cs))

-- Fields and files whose contents can be made are encoded, under a boundary of hexadecimal digits,
-- to a body that gives back, by cutting it at the delimiter, every part in order: the header lines
-- with the names, and behind an empty line the value of the field or the bytes of the file; provided that no part has the delimiter in it, the line break before the part included.
pub read_body-body_of :
    (utf8 : Bytes → Option Text) (boundary : Text) (fields : List Field) (files : List File)
    (cs : List Bytes)
    → IsHex boundary
    → all (map joined (parts utf8 boundary fields files)) ≡ some cs
    → All (λ c. occurs (delimiter boundary) (crlf ++ c) ≡ false) cs
    → (body : Bytes) × (body_of utf8 boundary fields files ≡ some body)
      × (read_body boundary body ≡ some cs)
unfolding body_of read_body occurs
read_body-body_of utf8 boundary fields files cs hex made none_inside = (
  b'-' ∷ b'-' ∷ (boundary ++ framed_bytes utf8 boundary cs),
  ap joined (iter-framed utf8 boundary fields files)
      ∙ joined-framed utf8 boundary hex (parts utf8 boundary fields files) cs made,
  ap behind_first (
        split-append 13 (10 ∷ b'-' ∷ b'-' ∷ boundary)
          (refl, (refl, (refl, IsHex-once boundary hex))) [] (framed_bytes utf8 boundary cs) refl
        ∙ ap (λ r. [] ∷ r) (split-framed_bytes utf8 boundary hex cs none_inside))
      ∙ read_pieces-pieces utf8 boundary cs,
)
