-- ===== src/Asciicast/Loading/Tests.antt =====
-- A page that leads to a recording of version 2.
use asciinema.Base.{
  ℕ, ◌+◌, ◌++◌, if◌then◌else◌, Option, none, some, List, [], ◌∷◌, drop, Text, Bytes, bytes_eq,
  starts, occurs, chars, pos, ◌≡◌, refl,
}
use asciinema.Asciicast.Json.{Json, Fields, field, end, int, obj}
use asciinema.Asciicast.Opening.{of_version}
use asciinema.Asciicast.Url.{Tag, Response, Parts, Opened, fetched, without_ipfs, is_html, resolved}
use asciinema.Asciicast.Url.Links.{hrefs, values}
use asciinema.Asciicast.Url.Leads.{Leads, follows, to_content}
use asciinema.Asciicast.Loading.{Content, lines, entered, open_from_url, open_from_url-of_version}

abbrev page : List Tag
page =
    record {
      tag = "link";
      attrs =
          ("rel", some (chars "alternate"))
          ∷ ("type", some (chars "application/x-asciicast"))
          ∷ ("href", some (chars "/a.cast"))
          ∷ [];
    }
    ∷ []

abbrev cast : Response
cast = record { content_type = none; final_url = chars "http://h/a.cast"; body = chars "h" }

abbrev html : Response
html = record {
  content_type = some (chars "text/html");
  final_url = chars "http://h/page";
  body = [];
}

abbrev web : Text → Option Response
web url = if bytes_eq url (chars "http://h/a.cast") then some cast else some html

abbrev replaced : Bytes → Text
replaced bytes = bytes

abbrev start_tags : Text → List Tag
start_tags source = page

abbrev urlparse : Text → Parts
urlparse url = record { scheme = chars "http"; netloc = chars "h"; path = drop 8 url }

abbrev urlunparse : Parts → Text
urlunparse parts = parts.scheme ++ (chars "://" ++ (parts.netloc ++ parts.path))

abbrev dirname : Text → Text
dirname path = []

page_leads :
    Leads web replaced start_tags urlparse urlunparse dirname
      (chars "http://h/p")
      (fetched (chars "h"))
unfolding bytes_eq starts occurs without_ipfs is_html resolved hrefs values
page_leads =
    follows {page = html} (refl, (refl, refl)) refl refl
      (to_content {page = cast} (refl, (refl, refl)) refl)

abbrev fields : Fields
fields = field "version" (int (pos 2)) end

abbrev read : Opened → Content
read source = lines (chars "h") []

abbrev loads : Text → Option Json
loads t = some (obj fields)

open_from_url-of_version_example :
    (n : ℕ) × ((m : ℕ)
      → open_from_url loads read web replaced start_tags urlparse urlunparse dirname
          (n + m)
          (chars "http://h/p")
        ≡ some (entered (of_version fields [])))
open_from_url-of_version_example =
    open_from_url-of_version loads read web replaced start_tags urlparse urlunparse dirname
      (chars "http://h/p") (fetched (chars "h")) (chars "h") [] fields page_leads tt refl refl
      (λ h. refl)
