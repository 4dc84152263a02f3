-- ===== src/Commands/Cat.antt =====
-- asciinema/commands/cat.py. `open_from_url` gives a recording for each file name, or raises, each
-- time that it is called; any write to stdout may fail.
pub mod Again
mod Tests
use asciinema.Base.{
  ℕ, ◌+◌, if◌then◌else◌, Bool, true, false, Option, some, List, [], ◌∷◌, ◌++◌, Text,
}
use asciinema.Asciicast.Json.{Json}
use asciinema.Asciicast.Events.{Frame}
use asciinema.Asciicast.Opening.{Recording}
use asciinema.Asciicast.Frames.{recording_events}
use asciinema.Asciicast.V2.Reader.{Read, returned, raised, load_error}

-- What stdout has taken, what its buffer holds, the number of writes tried, and the errors printed.
pub record Screen : Type 0 where
  pub shown : List Text
  pub pending : List Text
  pub writes : ℕ
  pub errors : ℕ

abbrev pub blank : Screen
blank = record { shown = []; pending = []; writes = 0; errors = 0 }

-- It returns a status, or an `OSError` or another exception leaves it.
pub data Catted : Type 0 where
  status : ℕ → Screen → Catted
  os_error escaped : Screen → Catted

abbrev pub screen_of : Catted → Screen
screen_of (status code s) = s
screen_of (os_error s) = s
screen_of (escaped s) = s

-- `except OSError`, whether it comes from the terminal or out of `cat`.
unfoldable pub or_again : (Screen → Catted) → Catted → Catted
or_again again (os_error s) = again s
or_again again other = other

module _ (fails : ℕ → Bool) where
  -- `sys.stdout.write(text)`, `sys.stdout.flush()`, and what comes after them. Text that is not taken
  -- stays in the buffer, and goes before the next one.
  unfoldable pub show : Text → (Screen → Catted) → Screen → Catted
  show text rest s =
      if fails s.writes
      then os_error (record s { writes = s.writes + 1; pending = s.pending ++ text ∷ [] })
      else rest (record s {
        writes = s.writes + 1;
        shown = s.shown ++ (s.pending ++ text ∷ []);
        pending = [];
      })

  -- The loop over the events of one recording, and what comes after it.
  unfoldable pub show_frames : List Frame → Bool → (Screen → Catted) → Screen → Catted
  unfolding show
  show_frames [] true rest s = escaped s
  show_frames [] false rest s = rest s
  show_frames (frame ∷ frames) raises rest s = show frame.text (show_frames frames raises rest) s

  module _ (loads : Text → Option Json) where
    -- `cat`
    unfoldable pub cat : List (Read Recording) → Screen → Catted
    unfolding show_frames recording_events
    cat [] s = status 0 s
    cat (raised load_error ∷ files) s = status 1 (record s { errors = s.errors + 1 })
    cat (raised e ∷ files) s = escaped s
    cat (returned recording ∷ files) s =
        let events = recording_events loads (some (b'o' ∷ [])) recording in
        show_frames events.frames events.raises (cat files) s

    -- `execute`: `tty` says whether the terminal could be opened. The second `cat` opens the files
    -- again, where stdin has been closed.
    unfoldable pub execute : Bool → List (Read Recording) → List (Read Recording) → Catted
    unfolding cat or_again
    execute tty files again =
        if tty then or_again (cat again) (cat files blank) else cat files blank
