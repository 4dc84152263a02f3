-- ===== src/Commands/Env.antt =====
-- asciinema/commands/record.py and asciinema/recorder.py: the environment that a header shows.
use text.Mathlib.TextEquality.{eq_iff}
use asciinema.Base.{
  ℕ, ℤ, ◌||◌, if◌then◌else◌, Bool, true, false, String, Option, none, some, List, [], ◌∷◌, All,
  str_eq, lookup, insert, Dict, Text, arith, ◌≡◌, refl, ap, ◌∙◌,
}
use asciinema.Asciicast.Json.{Json, obj, Fields, end, field, get_field, set_field}
use asciinema.Asciicast.V2.Writer.{Header, header, assertion_error}
use asciinema.Pty.Defs.{Keys}
use asciinema.Recorder.Metadata.{
  captured, env_value, command_env_of, capture_env_of, IsRead, build_header-build_metadata,
}
use asciinema.Recorder.Call.{Arguments, Machine, metadata_of, get_tty_size}
use asciinema.Commands.Saved.{fields_of, header_of}
use asciinema.Commands.Init.{Parsed, arguments_of}
use asciinema.Commands.Whitelist.{Padded, IsPadded, joined, names, vars, vars-joined}

-- `v in vs`
abbrev pub is_in : String → List String → Bool
is_in v [] = false
is_in v (w ∷ ws) = str_eq w v || is_in v ws

get_field-set_field :
    (k j : String) (v : Json) (d : Fields)
    → get_field j (set_field k v d) ≡ (if str_eq k j then some v else get_field j d)
unfolding get_field set_field
get_field-set_field k j v end = refl
get_field-set_field k j v (field i w d) =
    ground (arith, eq_iff k j, eq_iff i k, eq_iff i j, get_field-set_field k j v d)

choose_last :
    (last first : Bool) (x y z : Option Json)
    → (first ≡ true → x ≡ y)
    → (if last then y else if first then x else z) ≡ (if first || last then y else z)
choose_last true true x y z h = refl
choose_last true false x y z h = refl
choose_last false true x y z h = h refl
choose_last false false x y z h = refl

captured-get_field :
    (env : Dict Text) (vars : List String) (v : String) (d : Fields)
    → get_field v (captured env vars d)
      ≡ (if is_in v vars then some (env_value (lookup v env)) else get_field v d)
unfolding captured
captured-get_field env [] v d = refl
captured-get_field env (w ∷ ws) v d =
    rw
      (
        captured-get_field env ws v (set_field w (env_value (lookup w env)) d),
        get_field-set_field w v (env_value (lookup w env)) d,
      )
      (choose_last (is_in v ws) (str_eq w v) _ _ (get_field v d)
        (λ e. ap (λ u. some (env_value (lookup u env))) ((eq_iff w v).0 e)))

-- The variables that a header shows are the listed ones, with their values.
abbrev pub IsWhitelisted : List String → Dict Text → Fields → Type 0
IsWhitelisted listed env h =
    (fields : Fields) × (get_field "env" h ≡ some (obj fields))
    × ((v : String)
        → get_field v fields ≡ (if is_in v listed then some (env_value (lookup v env)) else none))

fields-env :
    (cols rows : ℕ) (limit : Option ℤ) (vars : List String) (env : Dict Text) (title : Option Text)
    (file : List Text) (h : Header)
    → IsRead cols rows limit vars env title file h
    → get_field "env" (fields_of h) ≡ some (obj (captured env vars end))
unfolding fields_of
fields-env cols rows limit vars env title file (header h) r = r.1.1.1.1
fields-env cols rows limit vars env title file assertion_error r = elim r [ ]

header_env :
    (m : Machine) (a : Arguments)
    → get_field "env" (header_of m a)
      ≡ some (
          obj
            (captured (command_env_of a.command_env m.environ) (capture_env_of a.capture_env) end))
unfolding metadata_of
header_env m a =
    fields-env _ _ a.idle_time_limit (capture_env_of a.capture_env)
      (command_env_of a.command_env m.environ) a.title [] _
      (build_header-build_metadata m.now (get_tty_size m a 0).cols (get_tty_size m a 0).rows
        a.idle_time_limit (capture_env_of a.capture_env) (command_env_of a.command_env m.environ)
        a.title [])

-- The names of the whitelist have commas between them and any spaces around them; none has a comma,
-- is empty, or begins or ends with a space. Then the header of a recording has, under "env", a value
-- for each of these names, that of the environment of the recorded command or null, and for no
-- other name.
pub header_of-IsWhitelisted :
    (m : Machine) (args : Parsed) (env : Dict Text) (keys : Keys) (p : Padded) (ps : List Padded)
    → IsPadded p
    → All IsPadded ps
    → args.env ≡ joined p ps
    → IsWhitelisted
        (names (p ∷ ps))
        (insert "ASCIINEMA_REC" (b'1' ∷ []) env)
        (header_of m (arguments_of args env keys))
unfolding arguments_of command_env_of capture_env_of get_field insert
header_of-IsWhitelisted m args env keys p ps h hs e = (
  captured (insert "ASCIINEMA_REC" (b'1' ∷ []) env) (names (p ∷ ps)) end,
  header_env m (arguments_of args env keys)
      ∙ ap (λ vs. some (obj (captured (insert "ASCIINEMA_REC" (b'1' ∷ []) env) vs end)))
          (ap vars e ∙ vars-joined p ps h hs),
  λ v. captured-get_field _ (names (p ∷ ps)) v end,
)
