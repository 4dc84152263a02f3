-- ===== src/Asciicast/Url.antt =====
-- asciinema/asciicast/__init__.py: `open_url`, and the parser of HTML that looks for a link.
pub mod Links
pub mod Leads
mod Tests
use asciinema.Base.{
  ℕ, zero, suc, ◌==◌, ◌&&◌, ◌||◌, not, if◌then◌else◌, Bool, true, false, String, str_eq, Option,
  none, some, List, [], ◌∷◌, ◌++◌, drop, Text, Bytes, bytes_eq, starts, occurs, chars, Dict, lookup,
  insert,
}

-- A start tag, with its attributes in order.
pub record Tag : Type 0 where
  pub tag : String
  pub attrs : Dict (Option Text)

-- `_attrs[k] = v` for each.
unfoldable pub attributes : Dict (Option Text) → Dict (Option Text) → Dict (Option Text)
unfolding insert
attributes d [] = d
attributes d ((k, v) ∷ attrs) = attributes (insert k v d) attrs

-- A missing attribute, and one without a value, are `None`.
abbrev pub value_of : Option (Option Text) → Option Text
value_of none = none
value_of (some v) = v

abbrev pub is_text : Text → Option Text → Bool
is_text t none = false
is_text t (some u) = bytes_eq u t

unfoldable pub is_alternate : Dict (Option Text) → Bool
unfolding lookup bytes_eq
is_alternate attrs =
    is_text (chars "alternate") (value_of (lookup "rel" attrs))
    && (is_text (chars "application/asciicast+json") (value_of (lookup "type" attrs))
        || is_text (chars "application/x-asciicast") (value_of (lookup "type" attrs)))

-- `handle_starttag`, on the `url` of the parser.
unfoldable pub handle_starttag : Tag → Option Text → Option Text
unfolding attributes is_alternate lookup
handle_starttag t url =
    let attrs = attributes [] t.attrs in
    if str_eq t.tag "link" && is_alternate attrs then value_of (lookup "href" attrs) else url

unfoldable pub feed : List Tag → Option Text → Option Text
unfolding handle_starttag
feed [] url = url
feed (t ∷ tags) url = feed tags (handle_starttag t url)

-- What `urlopen` gives: the headers, the URL after redirects, and what `read` gives, behind
-- `gzip.open` where the content is encoded so.
pub record Response : Type 0 where
  pub content_type : Option Text
  pub final_url : Text
  pub body : Bytes

pub data Opened : Type 0 where
  stdin : Opened
  local_file : Text → Opened
  fetched : Bytes → Opened
  load_error os_error : Opened

unfoldable pub without_ipfs : Text → Text
unfolding starts
without_ipfs url =
    if starts (chars "ipfs://") url
    then chars "https://ipfs.io/ipfs/" ++ drop 7 url
    else if starts (chars "dweb:/ipfs/") url
    then chars "https://ipfs.io/" ++ drop 5 url
    else url

-- The next call of `open_url`, or the end.
pub data Next : Type 0 where
  stop : Opened → Next
  again : Text → Next

abbrev pub onward : Next → (Text → Option Opened) → Option Opened
onward (stop r) rest = some r
onward (again url) rest = rest url

-- `urlparse`, by its first three parts.
pub record Parts : Type 0 where
  pub scheme : Text
  pub netloc : Text
  pub path : Text

unfoldable pub is_html : Option Text → Bool
unfolding starts
is_html none = false
is_html (some content_type) = starts (chars "text/html") content_type

module _ (urlopen : Text → Option Response) (replaced : Bytes → Text) (start_tags : Text → List Tag)
    (urlparse : Text → Parts) (urlunparse : Parts → Text) (dirname : Text → Text) where
  -- A link, as seen from the page at `url`.
  unfoldable pub resolved : Text → Text → Text
  unfolding occurs starts
  resolved url new_url =
      let base = urlparse url in
      if occurs (chars "://") new_url
      then new_url
      else if starts (chars "/") new_url
      then urlunparse (record base { path = new_url })
      else urlunparse (record base { path = dirname base.path ++ b'/' ∷ new_url })

  -- `if not new_url`
  unfoldable pub followed : Text → Option Text → Next
  unfolding resolved
  followed url none = stop load_error
  followed url (some []) = stop load_error
  followed url (some (c ∷ cs)) = again (resolved url (c ∷ cs))

  unfoldable pub received : Option Response → Next
  unfolding followed feed is_html
  received none = stop os_error
  received (some response) =
      if is_html response.content_type
      then followed response.final_url (feed (start_tags (replaced response.body)) none)
      else stop (fetched response.body)

  unfoldable pub opened_or_next : Text → Next
  unfolding received without_ipfs bytes_eq starts
  opened_or_next given =
      let url = without_ipfs given in
      if bytes_eq given (b'-' ∷ [])
      then stop stdin
      else if starts (chars "http:") url || starts (chars "https:") url
      then received (urlopen url)
      else stop (local_file url)

  -- With fuel for so many calls.
  unfoldable pub open_url : ℕ → Text → Option Opened
  unfolding opened_or_next
  open_url zero url = none
  open_url (suc n) url = onward (opened_or_next url) (open_url n)
