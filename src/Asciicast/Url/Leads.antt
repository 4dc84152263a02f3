-- ===== src/Asciicast/Url/Leads.antt =====
-- asciinema/asciicast/__init__.py, `open_url`: how pages lead to a recording.
use mathlib.Core.Path.{subst}
use asciinema.Base.{
  ℕ, zero, suc, ◌+◌, ◌||◌, Bool, true, false, Bool-cases, inl, inr, Option, none, some, List, [],
  ◌∷◌, Text, Bytes, bytes_eq, starts, chars, last_of, ◌≡◌, ◌↔◌, refl, ap, ◌∙◌, arith,
}
use asciinema.Asciicast.Url.{
  Tag, value_of, Response, Opened, stdin, local_file, fetched, load_error, os_error, Parts, Next,
  stop, again, onward, without_ipfs, resolved, followed, is_html, received, opened_or_next,
  open_url,
}
use asciinema.Asciicast.Url.Links.{hrefs, feed-hrefs}

abbrev is_web : Text → Bool
is_web url = starts (chars "http:") url || starts (chars "https:") url

abbrev or_empty : Option Text → Text
or_empty none = []
or_empty (some t) = t

module _ (urlopen : Text → Option Response) (replaced : Bytes → Text) (start_tags : Text → List Tag)
    (urlparse : Text → Parts) (urlunparse : Parts → Text) (dirname : Text → Text) where
  -- The link of a page, or the empty text.
  abbrev link_of : Response → Text
  link_of page = or_empty (value_of (last_of none (hrefs (start_tags (replaced page.body)))))

  -- What the network gives for a URL.
  abbrev IsAnswer : Text → Option Response → Type 0
  IsAnswer url answer =
      (bytes_eq url (b'-' ∷ []) ≡ false)
      × ((is_web (without_ipfs url) ≡ true) × (urlopen (without_ipfs url) ≡ answer))

  -- The pages lead, link by link, to this end.
  pub data Leads : Text → Opened → Type 0 where
    to_stdin : {url : Text} → bytes_eq url (b'-' ∷ []) ≡ true → Leads url stdin
    to_file :
        {url : Text}
        → bytes_eq url (b'-' ∷ []) ≡ false
        → is_web (without_ipfs url) ≡ false
        → Leads url (local_file (without_ipfs url))
    nowhere : {url : Text} → IsAnswer url none → Leads url os_error
    to_content :
        {url : Text} {page : Response}
        → IsAnswer url (some page)
        → is_html page.content_type ≡ false
        → Leads url (fetched page.body)
    without_link :
        {url : Text} {page : Response}
        → IsAnswer url (some page)
        → is_html page.content_type ≡ true
        → link_of page ≡ []
        → Leads url load_error
    follows :
        {url : Text} {page : Response} {c : ℕ} {cs : Text} {r : Opened}
        → IsAnswer url (some page)
        → is_html page.content_type ≡ true
        → link_of page ≡ c ∷ cs
        → Leads
            (resolved urlopen replaced start_tags urlparse urlunparse dirname page.final_url
              (c ∷ cs))
            r
        → Leads url r

  abbrev opens : ℕ → Text → Option Opened
  opens = open_url urlopen replaced start_tags urlparse urlunparse dirname

  abbrev next_of : Text → Next
  next_of = opened_or_next urlopen replaced start_tags urlparse urlunparse dirname

  abbrev next_by : Option Response → Next
  next_by = received urlopen replaced start_tags urlparse urlunparse dirname

  abbrev follow : Text → Option Text → Next
  follow = followed urlopen replaced start_tags urlparse urlunparse dirname

  abbrev goal_of : Text → Text → Text
  goal_of = resolved urlopen replaced start_tags urlparse urlunparse dirname

  -- The code, for each of these ends.
  next-stdin : (url : Text) → bytes_eq url (b'-' ∷ []) ≡ true → next_of url ≡ stop stdin
  unfolding opened_or_next
  next-stdin url h = rw h refl

  next-file :
      (url : Text)
      → bytes_eq url (b'-' ∷ []) ≡ false
      → is_web (without_ipfs url) ≡ false
      → next_of url ≡ stop (local_file (without_ipfs url))
  unfolding opened_or_next
  next-file url h k = rw (h, k) refl

  next-answer :
      (url : Text) (answer : Option Response) → IsAnswer url answer → next_of url ≡ next_by answer
  unfolding opened_or_next
  next-answer url answer (h, (k, e)) = rw (h, k, e) refl

  by-content :
      (page : Response)
      → is_html page.content_type ≡ false
      → next_by (some page) ≡ stop (fetched page.body)
  unfolding received
  by-content page h = rw h refl

  by-html :
      (page : Response)
      → is_html page.content_type ≡ true
      → next_by (some page)
        ≡ follow page.final_url (value_of (last_of none (hrefs (start_tags (replaced page.body)))))
  unfolding received
  by-html page h = rw (h, feed-hrefs (start_tags (replaced page.body))) refl

  follow-nothing : (url : Text) (o : Option Text) → or_empty o ≡ [] → follow url o ≡ stop load_error
  unfolding followed
  follow-nothing url none h = refl
  follow-nothing url (some []) h = refl
  follow-nothing url (some (c ∷ cs)) h = absurd cc

  follow-link :
      (url : Text) (o : Option Text) (c : ℕ) (cs : Text)
      → or_empty o ≡ c ∷ cs
      → follow url o ≡ again (goal_of url (c ∷ cs))
  unfolding followed
  follow-link url none c cs h = absurd cc
  follow-link url (some []) c cs h = absurd cc
  follow-link url (some (d ∷ ds)) c cs h =
      let same : Path Text (d ∷ ds) (c ∷ cs) = h in ap (λ l. again (goal_of url l)) same

  opens-suc :
      (k n : ℕ) (url : Text) (x : Next)
      → k ≡ suc n
      → next_of url ≡ x
      → opens k url ≡ onward x (opens n)
  unfolding open_url
  opens-suc k n url x e h = ap (λ j. opens j url) e ∙ ap (λ y. onward y (opens n)) h

  IsOpened : Text → Opened → Type 0
  IsOpened url r = (n : ℕ) × ((m : ℕ) → opens (n + m) url ≡ some r)

  stop-IsOpened : (url : Text) (r : Opened) → next_of url ≡ stop r → IsOpened url r
  unfolding IsOpened
  stop-IsOpened url r h = (1, λ m. opens-suc (1 + m) m url (stop r) (omega arith) h)

  again-IsOpened :
      (url next : Text) (r : Opened) → next_of url ≡ again next → IsOpened next r → IsOpened url r
  unfolding IsOpened
  again-IsOpened url next r h (n, k) =
      (suc n, λ m. opens-suc (suc n + m) (n + m) url (again next) (omega arith) h ∙ k m)

  next-follows :
      (url : Text) (page : Response) (c : ℕ) (cs : Text)
      → IsAnswer url (some page)
      → is_html page.content_type ≡ true
      → link_of page ≡ c ∷ cs
      → next_of url ≡ again (goal_of page.final_url (c ∷ cs))
  next-follows url page c cs a h l =
      next-answer url (some page) a
      ∙ by-html page h
      ∙ follow-link page.final_url
          (value_of (last_of none (hrefs (start_tags (replaced page.body))))) c cs l

  next-without_link :
      (url : Text) (page : Response)
      → IsAnswer url (some page)
      → is_html page.content_type ≡ true
      → link_of page ≡ []
      → next_of url ≡ stop load_error
  next-without_link url page a h l =
      next-answer url (some page) a
      ∙ by-html page h
      ∙ follow-nothing page.final_url
          (value_of (last_of none (hrefs (start_tags (replaced page.body))))) l

  next-content :
      (url : Text) (page : Response)
      → IsAnswer url (some page)
      → is_html page.content_type ≡ false
      → next_of url ≡ stop (fetched page.body)
  next-content url page a h = next-answer url (some page) a ∙ by-content page h

  next-nowhere : (url : Text) → IsAnswer url none → next_of url ≡ stop os_error
  unfolding received
  next-nowhere url a = next-answer url none a

  Leads-IsOpened : (url : Text) (r : Opened) → Leads url r → IsOpened url r
  Leads-IsOpened url r (to_stdin h) = stop-IsOpened url stdin (next-stdin url h)
  Leads-IsOpened url r (to_file h k) =
      stop-IsOpened url (local_file (without_ipfs url)) (next-file url h k)
  Leads-IsOpened url r (nowhere a) = stop-IsOpened url os_error (next-nowhere url a)
  Leads-IsOpened url r (to_content {page = page} a h) =
      stop-IsOpened url (fetched page.body) (next-content url page a h)
  Leads-IsOpened url r (without_link {page = page} a h l) =
      stop-IsOpened url load_error (next-without_link url page a h l)
  Leads-IsOpened url r (follows {page = page} {c = c} {cs = cs} a h l rest) =
      let next = goal_of page.final_url (c ∷ cs) in
      again-IsOpened url next r (next-follows url page c cs a h l) (Leads-IsOpened next r rest)

  -- The other way, for what `open_url` returns with so much fuel, once it does so behind a link.
  module _ (n : ℕ)
      (before : (next : Text) (r : Opened) → opens n next ≡ some r → Leads next r) where
    abbrev ResultIs : Next → Opened → Type 0
    ResultIs x r = onward x (opens n) ≡ some r

    stopped :
        (url : Text) (q r : Opened)
        → next_of url ≡ stop q
        → ResultIs (next_of url) r
        → Leads url q
        → Leads url r
    stopped url q r e h l =
        let returned : Path (Option Opened) (some q) (some r) = subst (λ y. ResultIs y r) e h in
        let same : q ≡ r = cc in subst (Leads url) same l

    linked :
        (url : Text) (page : Response) (r : Opened)
        → IsAnswer url (some page)
        → is_html page.content_type ≡ true
        → (link : Text) → link_of page ≡ link
        → ResultIs (next_of url) r
        → Leads url r
    linked url page r a h [] e k =
        stopped url load_error r (next-without_link url page a h e) k (without_link a h e)
    linked url page r a h (c ∷ cs) e k = follows a h e (
        before (goal_of page.final_url (c ∷ cs)) r
          (subst (λ y. ResultIs y r) (next-follows url page c cs a h e) k))

    answered :
        (url : Text) (answer : Option Response) (r : Opened)
        → IsAnswer url answer
        → ResultIs (next_of url) r
        → Leads url r
    answered url none r a k = stopped url os_error r (next-nowhere url a) k (nowhere a)
    answered url (some page) r a k = elim (Bool-cases (is_html page.content_type)) [
      | inl h ↦ linked url page r a h (link_of page) refl k
      | inr h ↦ stopped url (fetched page.body) r (next-content url page a h) k (to_content a h)
    ]

    anywhere : (url : Text) (r : Opened) → ResultIs (next_of url) r → Leads url r
    anywhere url r k = elim (Bool-cases (bytes_eq url (b'-' ∷ []))) [
      | inl h ↦ stopped url stdin r (next-stdin url h) k (to_stdin h)
      | inr h ↦ elim (Bool-cases (is_web (without_ipfs url))) [
        | inl w ↦ answered url (urlopen (without_ipfs url)) r (h, (w, refl)) k
        | inr w ↦ stopped url (local_file (without_ipfs url)) r (next-file url h w) k (to_file h w)
      ]
    ]

  opens-Leads : (n : ℕ) (url : Text) (r : Opened) → opens n url ≡ some r → Leads url r
  unfolding open_url
  opens-Leads zero url r h = absurd cc
  opens-Leads (suc n) url r h = anywhere n (opens-Leads n) url r h

-- A call of `open_url` gives a result, from some depth of calls on and always the same, exactly
-- where the pages lead to it: a URL that is a dash to stdin, one that is not of the web to a file,
-- one without an answer to an error, one whose answer is no HTML to its content; and an HTML page to
-- where its last link to a recording leads, seen from the page's final URL, or without one to an
-- error.
pub open_url-Leads :
    (urlopen : Text → Option Response) (replaced : Bytes → Text) (start_tags : Text → List Tag)
    (urlparse : Text → Parts) (urlunparse : Parts → Text) (dirname : Text → Text) (url : Text)
    (r : Opened)
    → Leads urlopen replaced start_tags urlparse urlunparse dirname url r ↔ (
        (n : ℕ) × ((m : ℕ)
          → open_url urlopen replaced start_tags urlparse urlunparse dirname (n + m) url ≡ some r))
unfolding IsOpened
open_url-Leads urlopen replaced start_tags urlparse urlunparse dirname url r = (
  Leads-IsOpened urlopen replaced start_tags urlparse urlunparse dirname url r,
  λ k.
      let (n, h) = k in
      opens-Leads urlopen replaced start_tags urlparse urlunparse dirname (n + 0) url r (h 0),
)
