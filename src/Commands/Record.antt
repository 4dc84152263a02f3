-- ===== src/Commands/Record.antt =====
-- asciinema/commands/record.py, `RecordCommand.execute`. `recorder.record` and the upload are
-- arguments: what they do to the file and which exception they raise.
use asciinema.Base.{
  ℕ, ltb, ◌&&◌, not, if◌then◌else◌, Bool, false, Option, none, some, List, [], ◌∷◌, ◌++◌, Text,
  bytes_eq,
}
use asciinema.Asciicast.Json.{Json}

pub data Message : Type 0 where
  filename_required stdout_is_tty cant_write already_exists use_overwrite use_append : Message
  no_directory directory_not_writable not_appending : Message
  appending recording_to_stdout recording_to exit_program press_ctrl_d : Message
  record_error only_v2 recording_finished question new_line saved discarded : Message
  upload_warning upload_message : Text → Message
  cursor_up upload_failed retry_later : Message

pub record Options : Type 0 where
  pub filename : Text
  pub raw : Bool
  pub append : Bool
  pub overwrite : Bool
  pub assume_yes : Bool
  pub quiet : Bool
  pub has_command : Bool

-- The file that the name stands for, and the directory it is in.
pub record Place : Type 0 where
  pub content : Option (List Json)
  pub size : ℕ
  pub writable : Bool
  pub directory_exists : Bool
  pub directory_writable : Bool

-- `print` and `print_info` say nothing in quiet mode; errors are forced.
abbrev pub info : Options → Message → List Message
info o m = if o.quiet then [] else m ∷ []

-- The checks before a recording: what is printed, and either the end or whether to append, with the
-- file.
pub data Checked : Type 0 where
  refused : List Message → Checked
  accepted : Bool → Option (List Json) → List Message → Checked

unfoldable pub check_existing : Options → Place → List Json → Checked
check_existing o place content =
    if not place.writable
    then refused (cant_write ∷ [])
    else if ltb 0 place.size && o.overwrite
    then accepted false none []
    else if ltb 0 place.size && not o.append
    then refused (already_exists ∷ use_overwrite ∷ use_append ∷ [])
    else accepted o.append (some content) []

unfoldable pub check_missing : Options → Place → Checked
check_missing o place =
    if not place.directory_exists
    then refused (no_directory ∷ [])
    else if not place.directory_writable
    then refused (directory_not_writable ∷ [])
    else if o.append
    then accepted false none (info o not_appending)
    else accepted false none []

-- `tmp` is the file of `_tmp_path`, `place` that of the file name, `tty` whether stdout is a terminal.
unfoldable pub check_path : Options → Place → Checked
unfolding check_existing check_missing
check_path o place = elim place.content [
  | some content ↦ check_existing o place content
  | none ↦ check_missing o place
]

abbrev pub is_interactive : Options → Bool
is_interactive o = bytes_eq o.filename []

abbrev pub is_stdout : Options → Bool
is_stdout o = bytes_eq o.filename (b'-' ∷ [])

unfoldable pub check : Options → Bool → Place → Place → Checked
unfolding check_path
check o tty tmp place =
    if is_interactive o
    then (if o.raw then refused (filename_required ∷ []) else check_path o tmp)
    else if is_stdout o
    then (if tty then refused (stdout_is_tty ∷ []) else accepted false none [])
    else check_path o place

-- `recorder.record`: it returns, or raises an `IOError`, a `LoadError` or another exception, with the
-- file behind it; or the recording goes on.
pub data Recorded : Type 0 where
  unfinished : Recorded
  recorded io_error load_error other_error : Option (List Json) → Recorded

-- A line typed, with its spaces stripped and in lower case, or ctrl-c.
pub data Answer : Type 0 where
  typed : Text → Answer
  interrupt : Answer

pub data Choice : Type 0 where
  save upload discard again : Choice

unfoldable pub choice_of : Text → Choice
unfolding bytes_eq
choice_of t =
    if bytes_eq t (b's' ∷ [])
    then save
    else if bytes_eq t (b's' ∷ b'a' ∷ b'v' ∷ b'e' ∷ [])
    then save
    else if bytes_eq t (b'u' ∷ [])
    then upload
    else if bytes_eq t (b'u' ∷ b'p' ∷ b'l' ∷ b'o' ∷ b'a' ∷ b'd' ∷ [])
    then upload
    else if bytes_eq t (b'd' ∷ [])
    then discard
    else if bytes_eq t (b'd' ∷ b'i' ∷ b's' ∷ b'c' ∷ b'a' ∷ b'r' ∷ b'd' ∷ [])
    then discard
    else again

-- What is chosen, if the answers lead to a choice, and what is printed.
pub record Asked : Type 0 where
  pub choice : Option Choice
  pub printed : List Message

abbrev asked_before : List Message → Asked → Asked
asked_before ms a = record a { printed = ms ++ a.printed }

unfoldable pub ask : Options → List Answer → Asked
unfolding choice_of
ask o [] = record { choice = none; printed = question ∷ [] }
ask o (interrupt ∷ answers) = record { choice = some save; printed = question ∷ info o new_line }
ask o (typed t ∷ answers) =
    let rest = ask o answers in
    elim (choice_of t) [
      | save ↦ record { choice = some save; printed = question ∷ [] }
      | upload ↦ record { choice = some upload; printed = question ∷ [] }
      | discard ↦ record { choice = some discard; printed = question ∷ [] }
      | again ↦ asked_before (question ∷ []) rest
    ]

-- `api.upload_asciicast`: a warning, if there is one, and the message; or an `APIError`.
pub data Uploaded : Type 0 where
  uploaded : Option Text → Text → Uploaded
  api_error : Uploaded

-- The status, the file, and what was printed; an exception that is not caught; or it is still `recording`,
-- or `waiting` for an answer.
pub data Outcome : Type 0 where
  recording : List Message → Outcome
  escapes : Option (List Json) → List Message → Outcome
  exits : ℕ → Option (List Json) → List Message → Outcome
  waiting : Option (List Json) → List Message → Outcome

unfoldable warned : Options → Option Text → List Message
warned o none = []
warned o (some []) = []
warned o (some (c ∷ cs)) = info o (upload_warning (c ∷ cs))

unfoldable pub finish_upload : Options → Uploaded → Option (List Json) → List Message → Outcome
unfolding warned
finish_upload o (uploaded warning message) file ms =
    exits 0 none (ms ++ warned o warning ++ info o (upload_message message))
finish_upload o api_error file ms =
    exits 1 file (ms ++ info o cursor_up ++ upload_failed ∷ retry_later ∷ [])

unfoldable pub finish_choice :
    Options → Uploaded → Option Choice → Option (List Json) → List Message → Outcome
unfolding finish_upload
finish_choice o up (some save) file ms = exits 0 file (ms ++ info o saved)
finish_choice o up (some upload) file ms = finish_upload o up file ms
finish_choice o up (some discard) file ms = exits 0 none (ms ++ info o discarded)
finish_choice o up _ file ms = waiting file ms

unfoldable pub finish :
    Options → Uploaded → List Answer → Option (List Json) → List Message → Outcome
unfolding ask finish_choice finish_upload
finish o up answers file ms =
    if is_interactive o
    then (if o.assume_yes
        then finish_upload o up file ms
        else (let asked = ask o answers in
            finish_choice o up asked.choice file (ms ++ asked.printed)))
    else if is_stdout o
    then exits 0 file ms
    else exits 0 file (ms ++ info o saved)

-- The messages before a recording.
abbrev announced : Options → Bool → List Message
announced o append =
    (if append
      then info o appending
      else if is_stdout o
      then info o recording_to_stdout
      else info o recording_to)
    ++ (if o.has_command then info o exit_program else info o press_ctrl_d)

unfoldable pub after_record : Options → Uploaded → List Answer → Recorded → List Message → Outcome
unfolding finish
after_record o up answers (io_error file) ms = exits 1 file (ms ++ record_error ∷ [])
after_record o up answers (load_error file) ms = exits 1 file (ms ++ only_v2 ∷ [])
after_record o up answers (other_error file) ms = escapes file ms
after_record o up answers unfinished ms = recording ms
after_record o up answers (recorded file) ms =
    finish o up answers file (ms ++ info o recording_finished)

module _ (record_ : Bool → Option (List Json) → Recorded) (o : Options) where
  -- A refusal leaves the file of the name as it is.
  unfoldable pub go_on : Uploaded → List Answer → Option (List Json) → Checked → Outcome
  unfolding after_record
  go_on up answers file (refused ms) = exits 1 file ms
  go_on up answers file (accepted append left ms) =
      after_record o up answers (record_ append left) (ms ++ announced o append)

  abbrev pub target : Place → Place → Option (List Json)
  target tmp place =
      if is_interactive o then tmp.content else if is_stdout o then none else place.content

  unfoldable pub execute : Bool → Place → Place → Uploaded → List Answer → Outcome
  unfolding check go_on
  execute tty tmp place up answers = go_on up answers (target tmp place) (check o tty tmp place)
