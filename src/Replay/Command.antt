-- ===== src/Replay/Command.antt =====
-- asciinema/commands/record.py and asciinema/commands/cat.py: `rec` of a file, then `cat` of it.
mod Sample
mod Tests
use asciinema.Base.{ℕ, Bool, some, List, [], ◌∷◌, map, Text, ◌≡◌}
use asciinema.Asciicast.Json.{Json}
use asciinema.Asciicast.Opening.{Recording, open_recording}
use asciinema.Asciicast.V2.Reader.{Read}
use asciinema.Utf8.{start, decode}
use asciinema.Recorder.Output.{output_bytes}
use asciinema.Recorder.Whole.{recorded_events}
use asciinema.Recorder.Call.{Arguments, Machine, loop_host, keys_of}
use asciinema.Commands.Record.{Outcome, exits, execute}
use asciinema.Commands.Cat as Cat
use asciinema.Replay.Cat.{Shows}

-- `rec` has ended with the status 0, and `cat` of the lines of its file shows this text.
abbrev pub ShowsAgain :
    (ℕ → Bool) → Bool → List (Read Recording) → Machine → Text → Outcome → Type 0
ShowsAgain fails tty again m shown (exits status (some (v ∷ vs)) ms) =
    (status ≡ 0)
    × Shows shown (
        Cat.execute fails m.loads tty (open_recording m.loads (m.dumps v) (map m.dumps vs) ∷ [])
          again)
ShowsAgain fails tty again m shown _ = ⊥

-- The output that the recording loop hands over, as one text.
abbrev pub session_output : Machine → Arguments → Text
session_output m a =
    (decode start
      (output_bytes (recorded_events (loop_host m a) (keys_of a.key_bindings) m.rounds))).text
