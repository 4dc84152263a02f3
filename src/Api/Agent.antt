-- ===== src/Api/Agent.antt =====
-- asciinema/api.py: the addresses and the headers of `Api`. The arguments of `user_agent` are what
-- the module `platform` gives, and `__version__`.
use asciinema.Base.{◌==◌, if◌then◌else◌, [], ◌∷◌, ◌++◌, Text, Dict, chars}

-- `f"{self.url}/connect/{self.install_id}"`
abbrev pub auth_url : Text → Text → Text
auth_url url install_id = url ++ (chars "/connect/" ++ install_id)

abbrev pub upload_url : Text → Text
upload_url url = url ++ chars "/api/asciicasts"

-- Where `re.sub` stands: before `[^-]+` has matched, in it, or in `.*`, which ends with the line.
pub data Place : Type 0 where
  ahead inside behind : Place

unfoldable pub next_place : Place → Text → Text
next_place place [] = []
next_place ahead (c ∷ cs) = c ∷ next_place (if c == b'-' then ahead else inside) cs
next_place inside (c ∷ cs) =
    if c == b'-' then b'/' ∷ next_place behind cs else c ∷ next_place inside cs
next_place behind (c ∷ cs) = c ∷ next_place (if c == b'\n' then inside else behind) cs

-- `re.sub("([^-]+)-(.*)", "\\1/\\2", name)`
unfoldable pub slashed : Text → Text
unfolding next_place
slashed name = next_place ahead name

unfoldable pub user_agent : Text → Text → Text → Text → Text
unfolding slashed
user_agent version implementation python_version platform =
    chars "asciinema/"
    ++ (version ++ b' ' ∷ (implementation ++ b'/' ∷ (python_version ++ b' ' ∷ slashed platform)))

-- `_headers`
abbrev pub headers : Text → Dict Text
headers agent = ("user-agent", agent) ∷ ("accept", chars "application/json") ∷ []
