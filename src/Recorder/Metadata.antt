-- ===== src/Recorder/Metadata.antt =====
-- asciinema/recorder.py: the arguments of `record`, `build_metadata` and `_get_tty_size`, with
-- `build_header` of asciinema/asciicast/v2.py behind them.
use asciinema.Base.{
  true, ℕ, ltb, ◌==◌, ◌&&◌, if◌then◌else◌, Bool, String, Option, none, some, List, [], ◌∷◌, Text, ℤ,
  pos, ◌≡◌, refl, Dict, lookup, insert,
}
use asciinema.Pty.Defs.{Size}
use asciinema.Asciicast.Json.{
  Json, null, int, float, str, obj, Fields, end, field, get_field, set_field,
}
use asciinema.Asciicast.V2.Writer.{Header, header, assertion_error, build_header, update}
use asciinema.Asciicast.V2.Reader.{
  Read, returned, get_duration, from_first_value, has_version, build_from_header_and_file,
  is_number,
}

-- `command`, which defaults to the shell.
unfoldable pub command_of : Option Text → Dict Text → Text
unfolding lookup
command_of (some command) environ = command
command_of none environ = elim (lookup "SHELL" environ) [
  | none ↦ b's' ∷ b'h' ∷ []
  | some shell ↦ shell
]

-- `command_env`, a copy of `os.environ` unless it is given, and what is put into it.
unfoldable pub command_env_of : Option (Dict Text) → Dict Text → Dict Text
unfolding insert
command_env_of none environ = insert "ASCIINEMA_REC" (b'1' ∷ []) environ
command_env_of (some env) environ = insert "ASCIINEMA_REC" (b'1' ∷ []) env

unfoldable pub capture_env_of : Option (List String) → List String
capture_env_of none = "SHELL" ∷ "TERM" ∷ []
capture_env_of (some capture_env) = capture_env

-- `time_offset`, for a file of this size that holds these lines.
unfoldable pub time_offset_of : (Text → Option Json) → Bool → ℕ → List Text → Read Json
unfolding get_duration
time_offset_of loads append size lines =
    if append && ltb 0 size then get_duration loads lines else returned (int (pos 0))

-- `env.get(var)` as JSON.
unfoldable pub env_value : Option Text → Json
env_value none = null
env_value (some value) = str value

-- `{var: env.get(var) for var in capture_env}`, with the items made so far.
unfoldable pub captured : Dict Text → List String → Fields → Fields
unfolding env_value lookup set_field
captured env [] fields = fields
captured env (var ∷ vars) fields =
    captured env vars (set_field var (env_value (lookup var env)) fields)

unfoldable pub with_title : Option Text → Fields → Fields
unfolding set_field
with_title none metadata = metadata
with_title (some []) metadata = metadata
with_title (some (c ∷ cs)) metadata = set_field "title" (str (c ∷ cs)) metadata

unfoldable pub with_idle_time_limit : Option ℤ → Fields → Fields
unfolding set_field
with_idle_time_limit none metadata = metadata
with_idle_time_limit (some limit) metadata = set_field "idle_time_limit" (float limit) metadata

-- `now` is `int(time.time())`.
unfoldable pub build_metadata :
    ℕ → ℕ → ℕ → Option ℤ → List String → Dict Text → Option Text → Fields
unfolding with_title with_idle_time_limit captured set_field
build_metadata now cols rows idle_time_limit capture_env env title =
    let sizes =
      field "width" (int (pos cols))
        (field "height" (int (pos rows)) (field "timestamp" (int (pos now)) end)) in
    let limited = with_idle_time_limit idle_time_limit sizes in
    with_title title (set_field "env" (obj (captured env capture_env end)) limited)

-- `override or n`
unfoldable pub or_else : Option ℕ → ℕ → ℕ
or_else none n = n
or_else (some m) n = if m == 0 then n else m

-- `_get_tty_size`: `terminal` is what `os.get_terminal_size` gives, if the descriptor is a terminal.
unfoldable pub tty_size : Option Size → Option ℕ → Option ℕ → Size
unfolding or_else
tty_size terminal (some cols) (some rows) = record { cols = cols; rows = rows }
tty_size none cols_override rows_override = record {
  cols = or_else cols_override 80;
  rows = or_else rows_override 24;
}
tty_size (some terminal) cols_override rows_override = record {
  cols = or_else cols_override terminal.cols;
  rows = or_else rows_override terminal.rows;
}

-- The title that a header shows.
abbrev pub shown_title : Option Text → Option Json
shown_title none = none
shown_title (some []) = none
shown_title (some (c ∷ cs)) = some (str (c ∷ cs))

abbrev pub shown_limit : Option ℤ → Option Json
shown_limit none = none
shown_limit (some limit) = some (float limit)

-- No assertion fails; the header is read as one of version 2 with this idle time limit, and holds
-- the size, the title and the environment.
abbrev pub IsRead :
    ℕ → ℕ → Option ℤ → List String → Dict Text → Option Text → List Text → Header → Type 0
IsRead cols rows limit vars env title file (header h) =
    (from_first_value (some (obj h)) file
      ≡ returned (record { file = file; v2_header = h; idle_time_limit = shown_limit limit }))
    × ((get_field "width" h ≡ some (int (pos cols)))
        × ((get_field "height" h ≡ some (int (pos rows)))
            × ((get_field "title" h ≡ shown_title title)
                × (get_field "env" h ≡ some (obj (captured env vars end))))))
IsRead cols rows limit vars env title file assertion_error = ⊥

-- The header made of the recorder's metadata passes all assertions. Read as the first line of a
-- file it opens the file as a version 2 recording, whose idle time limit is that of the recorder;
-- it holds the size of the terminal, the title unless that is empty, and the variables captured.
pub build_header-build_metadata :
    (now cols rows : ℕ) (limit : Option ℤ) (vars : List String) (env : Dict Text)
    (title : Option Text) (file : List Text)
    → IsRead cols rows limit vars env title file
        (build_header none none (build_metadata now cols rows limit vars env title))
unfolding build_header build_metadata update with_title with_idle_time_limit set_field get_field
    from_first_value has_version build_from_header_and_file is_number
build_header-build_metadata now cols rows none vars env none file =
    (refl, (refl, (refl, (refl, refl))))
build_header-build_metadata now cols rows none vars env (some []) file =
    (refl, (refl, (refl, (refl, refl))))
build_header-build_metadata now cols rows none vars env (some (c ∷ cs)) file =
    (refl, (refl, (refl, (refl, refl))))
build_header-build_metadata now cols rows (some l) vars env none file =
    (refl, (refl, (refl, (refl, refl))))
build_header-build_metadata now cols rows (some l) vars env (some []) file =
    (refl, (refl, (refl, (refl, refl))))
build_header-build_metadata now cols rows (some l) vars env (some (c ∷ cs)) file =
    (refl, (refl, (refl, (refl, refl))))

-- A header that is made, and is one of version 2.
abbrev pub IsVersion2 : Header → Type 0
IsVersion2 (header h) = has_version 2 h ≡ true
IsVersion2 assertion_error = ⊥

pub build_header-IsVersion2 :
    (now cols rows : ℕ) (limit : Option ℤ) (vars : List String) (env : Dict Text)
    (title : Option Text)
    → IsVersion2 (build_header none none (build_metadata now cols rows limit vars env title))
unfolding build_header build_metadata update with_title with_idle_time_limit set_field get_field
    has_version is_number
build_header-IsVersion2 now cols rows none vars env none = refl
build_header-IsVersion2 now cols rows none vars env (some []) = refl
build_header-IsVersion2 now cols rows none vars env (some (c ∷ cs)) = refl
build_header-IsVersion2 now cols rows (some l) vars env none = refl
build_header-IsVersion2 now cols rows (some l) vars env (some []) = refl
build_header-IsVersion2 now cols rows (some l) vars env (some (c ∷ cs)) = refl
