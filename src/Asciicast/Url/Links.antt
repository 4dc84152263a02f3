-- ===== src/Asciicast/Url/Links.antt =====
-- asciinema/asciicast/__init__.py: the link that a page gives.
use asciinema.Base.{
  ◌&&◌, ◌||◌, if◌then◌else◌, Bool, true, false, String, str_eq, Option, none, some, List, [], ◌∷◌,
  Text, chars, Dict, lookup, insert, lookup-insert, last_of, ◌≡◌, refl, ap, ◌∙◌,
}
use asciinema.Asciicast.Url.{
  Tag, attributes, value_of, is_text, is_alternate, handle_starttag, feed,
}

-- The values that are given for an attribute, and the last of them, which counts.
unfoldable pub values : String → Dict (Option Text) → List (Option Text)
values k [] = []
values k ((j, v) ∷ attrs) = if str_eq j k then v ∷ values k attrs else values k attrs

abbrev last_value : String → Tag → Option Text
last_value k t = value_of (last_of none (values k t.attrs))

-- A link to a recording.
abbrev is_link : Tag → Bool
is_link t =
    str_eq t.tag "link"
    && (is_text (chars "alternate") (last_value "rel" t)
        && (is_text (chars "application/asciicast+json") (last_value "type" t)
            || is_text (chars "application/x-asciicast") (last_value "type" t)))

unfoldable pub hrefs : List Tag → List (Option Text)
unfolding values
hrefs [] = []
hrefs (t ∷ tags) = if is_link t then last_value "href" t ∷ hrefs tags else hrefs tags

last_of-if :
    {A : Type 0} (b : Bool) (v : A) (o : Option A) (vs : List A)
    → last_of (if b then some v else o) vs ≡ last_of o (if b then v ∷ vs else vs)
last_of-if true v o vs = refl
last_of-if false v o vs = refl

lookup-attributes :
    (k : String) (d attrs : Dict (Option Text))
    → lookup k (attributes d attrs) ≡ last_of (lookup k d) (values k attrs)
unfolding attributes values
lookup-attributes k d [] = refl
lookup-attributes k d ((j, v) ∷ attrs) =
    lookup-attributes k (insert j v d) attrs
    ∙ ap (λ o. last_of o (values k attrs)) (lookup-insert j k v d)
    ∙ last_of-if (str_eq j k) v (lookup k d) (values k attrs)

attribute-last_value :
    (k : String) (t : Tag) → value_of (lookup k (attributes [] t.attrs)) ≡ last_value k t
unfolding lookup
attribute-last_value k t = ap value_of (lookup-attributes k [] t.attrs)

handle_starttag-is_link :
    (t : Tag) (url : Option Text)
    → handle_starttag t url ≡ (if is_link t then last_value "href" t else url)
unfolding handle_starttag is_alternate
handle_starttag-is_link t url =
    rw (attribute-last_value "rel" t, attribute-last_value "type" t, attribute-last_value "href" t)
      refl

feed-if :
    (b : Bool) (tags : List Tag) (v : Option Text) (o : Option (Option Text))
    (vs : List (Option Text))
    → ((o : Option (Option Text)) → feed tags (value_of o) ≡ value_of (last_of o vs))
    → feed tags (if b then v else value_of o) ≡ value_of (last_of o (if b then v ∷ vs else vs))
feed-if true tags v o vs h = h (some v)
feed-if false tags v o vs h = h o

feed-last_of :
    (tags : List Tag) (o : Option (Option Text))
    → feed tags (value_of o) ≡ value_of (last_of o (hrefs tags))
unfolding feed hrefs
feed-last_of [] o = refl
feed-last_of (t ∷ tags) o =
    ap (feed tags) (handle_starttag-is_link t (value_of o))
    ∙ feed-if (is_link t) tags (last_value "href" t) o (hrefs tags) (feed-last_of tags)

-- The parser's `url` is the `href` of the last `<link>` of the page whose `rel` is `alternate` and
-- whose `type` is one of the two of recordings, where of an attribute that is given twice the last
-- value counts. It is `None` without such a link, and also where the last one has no `href`.
pub feed-hrefs : (tags : List Tag) → feed tags none ≡ value_of (last_of none (hrefs tags))
feed-hrefs tags = feed-last_of tags none
