-- ===== src/Http/Tests.antt =====
-- The body of a request with one file.
use asciinema.Base.{
  starts, occurs, false, some, none, [], ◌∷◌, chars, Text, ◌≡◌, refl, Bytes, List, Option, map, All,
  ◌++◌,
}
use asciinema.Utf8.{encode, encode_char}
use asciinema.Http.Multipart.{
  Field, File, number, crlf, u, field_chunks, body_of, iter, iter_files, file_chunks, open_part,
  joined,
}
use asciinema.Http.Split.{split}
use asciinema.Http.ReadBack.{delimiter, all, parts, read_body, read_body-body_of}

one_file :
    body_of (λ b. none) (chars "ab") [] ((chars "f", (chars "n", 1 ∷ 2 ∷ [])) ∷ [])
    ≡ some (
        chars
          "--ab\r\ncontent-disposition: form-data; name=\"f\"; filename=\"n\"\r\ncontent-type: application/octet-stream\r\n\r\n\u{1}\u{2}\r\n--ab--\r\n")
unfolding body_of iter iter_files file_chunks open_part joined encode encode_char
one_file = refl

two :
    split (chars "\r\n--ab") 0 (chars "x\r\n--aby\r\n--ab--\r\n")
    ≡ chars "x" ∷ chars "y" ∷ chars "--\r\n" ∷ []
unfolding split starts
two = refl

abbrev no_decoder : Bytes → Option Text
no_decoder bytes = none

abbrev fields : List Field
fields = (chars "k", number (chars "7")) ∷ []

abbrev files : List File
files = (chars "f", (chars "n", 1 ∷ 2 ∷ [])) ∷ []

abbrev contents : List Bytes
contents =
    chars "content-disposition: form-data; name=\"k\"\r\n\r\n7"
    ∷ chars
        "content-disposition: form-data; name=\"f\"; filename=\"n\"\r\ncontent-type: application/octet-stream\r\n\r\n\u{1}\u{2}"
    ∷ []

contents_made : all (map joined (parts no_decoder (chars "ab") fields files)) ≡ some contents
unfolding parts joined field_chunks file_chunks u encode encode_char
contents_made = refl

contents_free : All (λ c. occurs (delimiter (chars "ab")) (crlf ++ c) ≡ false) contents
unfolding occurs starts
contents_free = (refl, (refl, tt))

read_body-body_of_example :
    (body : Bytes) × (body_of no_decoder (chars "ab") fields files ≡ some body)
    × (read_body (chars "ab") body ≡ some contents)
read_body-body_of_example =
    read_body-body_of no_decoder (chars "ab") fields files contents (refl, (refl, tt)) contents_made
      contents_free
