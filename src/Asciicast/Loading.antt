-- ===== src/Asciicast/Loading.antt =====
-- asciinema/asciicast/__init__.py: `open_from_url`, from the URL to the recording. `read` gives the
-- lines of what was opened.
mod Tests
use asciinema.Base.{
  ℕ, ◌+◌, Bool, false, Option, none, some, List, ◌++◌, Text, Bytes, ◌≡◌, refl, ap, ◌∙◌,
}
use asciinema.Asciicast.Json.{Json, Fields, obj}
use asciinema.Asciicast.V1 as V1
use asciinema.Asciicast.V2.Reader.{Read, returned, raised, load_error, has_version}
use asciinema.Asciicast.Opening.{Recording, open_recording, of_version, open_recording-of_version}
use asciinema.Asciicast.Url.{
  Tag, Response, Parts, Opened, stdin, local_file, fetched, os_error, open_url,
}
use asciinema.Asciicast.Url as Url
use asciinema.Asciicast.Url.Leads.{Leads, open_url-Leads}

-- The first line and the others; or an `OSError` or a `UnicodeDecodeError` in reading them.
pub data Content : Type 0 where
  lines : Text → List Text → Content
  unreadable undecodable : Content

-- `__enter__` returns or raises, here a `UnicodeDecodeError`.
pub data Entered : Type 0 where
  entered : Read Recording → Entered
  unicode_error : Entered

unfoldable pub recording_in : (Text → Option Json) → Content → Entered
unfolding open_recording
recording_in loads (lines first_line file) = entered (open_recording loads first_line file)
recording_in loads unreadable = entered (raised load_error)
recording_in loads undecodable = unicode_error

-- The `try` of `__enter__`, behind `open_url`.
unfoldable pub entered_with : (Text → Option Json) → (Opened → Content) → Opened → Entered
unfolding recording_in
entered_with loads read Url.load_error = entered (raised load_error)
entered_with loads read os_error = entered (raised load_error)
entered_with loads read source = recording_in loads (read source)

abbrev and_then : (Opened → Entered) → Option Opened → Option Entered
and_then f none = none
and_then f (some r) = some (f r)

-- With fuel for so many calls of `open_url`.
unfoldable pub open_from_url :
    (Text → Option Json)
    → (Opened → Content)
    → (Text → Option Response)
    → (Bytes → Text)
    → (Text → List Tag)
    → (Text → Parts)
    → (Parts → Text)
    → (Text → Text)
    → ℕ
    → Text
    → Option Entered
unfolding entered_with open_url
open_from_url loads read urlopen replaced start_tags urlparse urlunparse dirname fuel url =
    and_then (entered_with loads read)
      (open_url urlopen replaced start_tags urlparse urlunparse dirname fuel url)

-- Stdin, a file or what was fetched, and no error.
abbrev pub IsSource : Opened → Type 0
IsSource Url.load_error = ⊥
IsSource os_error = ⊥
IsSource source = Unit

entered_with-IsSource :
    (loads : Text → Option Json) (read : Opened → Content) (r : Opened) (first_line : Text)
    (file : List Text)
    → IsSource r
    → read r ≡ lines first_line file
    → entered_with loads read r ≡ entered (open_recording loads first_line file)
unfolding entered_with recording_in
entered_with-IsSource loads read stdin first_line file s h = ap (recording_in loads) h
entered_with-IsSource loads read (local_file p) first_line file s h = ap (recording_in loads) h
entered_with-IsSource loads read (fetched b) first_line file s h = ap (recording_in loads) h
entered_with-IsSource loads read Url.load_error first_line file s h = elim s [ ]
entered_with-IsSource loads read os_error first_line file s h = elim s [ ]

-- The pages from a URL lead to a source whose first line is an object, and the whole of it reads as
-- that object too unless it is of version 2. Then `open_from_url` returns, from some depth of calls
-- on, and what it opens is decided by the version alone, as for a file.
pub open_from_url-of_version :
    (loads : Text → Option Json) (read : Opened → Content) (urlopen : Text → Option Response)
    (replaced : Bytes → Text) (start_tags : Text → List Tag) (urlparse : Text → Parts)
    (urlunparse : Parts → Text) (dirname : Text → Text) (url : Text) (r : Opened)
    (first_line : Text) (file : List Text) (fields : Fields)
    → Leads urlopen replaced start_tags urlparse urlunparse dirname url r
    → IsSource r
    → read r ≡ lines first_line file
    → loads first_line ≡ some (obj fields)
    → (has_version 2 fields ≡ false → loads (first_line ++ V1.read_lines file) ≡ some (obj fields))
    → (n : ℕ) × ((m : ℕ)
        → open_from_url loads read urlopen replaced start_tags urlparse urlunparse dirname
            (n + m)
            url
          ≡ some (entered (of_version fields file)))
unfolding open_from_url
open_from_url-of_version loads read urlopen replaced start_tags urlparse urlunparse dirname url r
      first_line file fields leads source h e k =
    let (n, opens) =
      (open_url-Leads urlopen replaced start_tags urlparse urlunparse dirname url r).0 leads in
    (
      n,
      λ m.
          ap (and_then (entered_with loads read)) (opens m)
          ∙ ap some (entered_with-IsSource loads read r first_line file source h)
          ∙ ap (λ a. some (entered a)) (open_recording-of_version loads first_line file fields e k),
    )
