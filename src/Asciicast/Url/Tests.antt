-- ===== src/Asciicast/Url/Tests.antt =====
-- A page with a link to a recording.
use asciinema.Base.{
  ◌++◌, ℕ, ◌+◌, if◌then◌else◌, Option, none, some, List, [], ◌∷◌, drop, Text, Bytes, bytes_eq,
  starts, occurs, chars, lookup, insert, ◌≡◌, ◌↔◌, refl,
}
use asciinema.Asciicast.Url.{
  Tag, Response, Parts, fetched, feed, open_url, opened_or_next, received, followed, resolved,
  is_html, without_ipfs, handle_starttag, attributes, is_alternate,
}
use asciinema.Asciicast.Url.Leads.{Leads, open_url-Leads}

-- The second link counts, with the second of its references.
abbrev page : List Tag
page =
    record {
      tag = "link";
      attrs =
          ("rel", some (chars "alternate"))
          ∷ ("type", some (chars "application/x-asciicast"))
          ∷ ("href", some (chars "/old.cast"))
          ∷ [];
    }
    ∷ record {
      tag = "link";
      attrs =
          ("href", some (chars "/b.cast"))
          ∷ ("rel", some (chars "alternate"))
          ∷ ("type", some (chars "application/asciicast+json"))
          ∷ ("href", some (chars "a.cast"))
          ∷ [];
    }
    ∷ record { tag = "p"; attrs = [] }
    ∷ []

page_fed : feed page none ≡ some (chars "a.cast")
unfolding feed handle_starttag attributes is_alternate lookup insert bytes_eq
page_fed = refl

abbrev web : Text → Option Response
web url =
    if bytes_eq url (chars "https://h/d/a.cast")
    then some (record { content_type = none; final_url = url; body = chars "{}" })
    else some (record {
      content_type = some (chars "text/html; charset=utf-8");
      final_url = chars "https://h/d/page";
      body = [];
    })

abbrev replaced : Bytes → Text
replaced bytes = bytes

abbrev start_tags : Text → List Tag
start_tags html = page

abbrev urlparse : Text → Parts
urlparse url = record { scheme = chars "https"; netloc = chars "h"; path = drop 9 url }

abbrev urlunparse : Parts → Text
urlunparse parts = parts.scheme ++ chars "://" ++ parts.netloc ++ parts.path

abbrev dirname : Text → Text
dirname path = chars "/d"

followed_once :
    open_url web replaced start_tags urlparse urlunparse dirname 2 (chars "ipfs://x")
    ≡ some (fetched (chars "{}"))
unfolding open_url opened_or_next received followed resolved is_html without_ipfs feed
    handle_starttag attributes is_alternate lookup insert bytes_eq starts occurs
followed_once = refl

open_url-Leads_example :
    Leads web replaced start_tags urlparse urlunparse dirname
      (chars "https://h/p")
      (fetched (chars "{}"))
    ↔ ((n : ℕ) × ((m : ℕ)
          → open_url web replaced start_tags urlparse urlunparse dirname
              (n + m)
              (chars "https://h/p")
            ≡ some (fetched (chars "{}"))))
open_url-Leads_example =
    open_url-Leads web replaced start_tags urlparse urlunparse dirname (chars "https://h/p")
      (fetched (chars "{}"))
