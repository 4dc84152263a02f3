-- ===== src/Asciicast/Opening.antt =====
-- asciinema/asciicast/__init__.py, `open_from_url` behind `open_url`: version 2 is tried first, then
-- version 1.
use asciinema.Base.{
  if◌then◌else◌, false, Option, some, List, ◌++◌, Text, ◌≡◌, refl, if_rule, ap, ◌∙◌,
}
use asciinema.Asciicast.Json.{Json, Fields, obj, get_field}
use asciinema.Asciicast.V1 as V1
use asciinema.Asciicast.V2.Reader as V2
use asciinema.Asciicast.V2.Reader.{
  Read, returned, raised, load_error, Raised, has_version, from_first_value,
  build_from_header_and_file,
}

pub data Recording : Type 0 where
  v1 : V1.Asciicast → Recording
  v2 : V2.Asciicast → Recording

unfoldable pub as_v1 : Read V1.Asciicast → Read Recording
as_v1 (returned a) = returned (v1 a)
as_v1 (raised e) = raised e

-- `except v2.LoadError`
unfoldable pub or_v1 : Read V2.Asciicast → Read V1.Asciicast → Read Recording
unfolding as_v1
or_v1 (returned a) second = returned (v2 a)
or_v1 (raised load_error) second = as_v1 second
or_v1 (raised e) second = raised e

unfoldable pub open_recording : (Text → Option Json) → Text → List Text → Read Recording
unfolding or_v1 V2.open_from_file V1.open_from_file
open_recording loads first_line file =
    or_v1 (V2.open_from_file loads first_line file) (V1.open_from_file loads first_line file)

-- What a recording of these fields should open as.
abbrev pub of_version : Fields → List Text → Read Recording
of_version fields file =
    if has_version 2 fields
    then returned (
        v2 (record {
          file = file;
          v2_header = fields;
          idle_time_limit = get_field "idle_time_limit" fields;
        }))
    else if has_version 1 fields
    then returned (v1 (record { attrs = fields }))
    else raised load_error

version_one_lem :
    (fields : Fields)
    → as_v1 (V1.from_value (some (obj fields))) ≡ (
        if has_version 1 fields
        then returned (v1 (record { attrs = fields }))
        else raised load_error)
unfolding as_v1 V1.from_value
version_one_lem fields =
    if_rule
      (λ r. as_v1 r ≡ (
        if has_version 1 fields
        then returned (v1 (record { attrs = fields }))
        else raised load_error))
      (has_version 1 fields) _ _ (λ e. rw e refl) (λ e. rw e refl)

-- If the first line is an object, and the whole file reads as that object too unless it is of
-- version 2, then the version alone decides how the file opens: version 2 with the lines behind the
-- first as its events, version 1 with the object as its attributes, any other not at all.
pub open_recording-of_version :
    (loads : Text → Option Json) (first_line : Text) (file : List Text) (fields : Fields)
    → loads first_line ≡ some (obj fields)
    → (has_version 2 fields ≡ false → loads (first_line ++ V1.read_lines file) ≡ some (obj fields))
    → open_recording loads first_line file ≡ of_version fields file
unfolding open_recording V2.open_from_file V1.open_from_file or_v1 from_first_value
    build_from_header_and_file
open_recording-of_version loads first_line file fields h k =
    ap
      (λ r.
        or_v1 (from_first_value r file) (V1.from_value (loads (first_line ++ V1.read_lines file))))
      h
    ∙ if_rule
        (λ r.
          or_v1 r (V1.from_value (loads (first_line ++ V1.read_lines file)))
          ≡ of_version fields file)
        (has_version 2 fields) _ _ (λ e. rw e refl) (λ e. rw (k e, e) (version_one_lem fields))
