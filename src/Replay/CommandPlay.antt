-- ===== src/Replay/CommandPlay.antt =====
-- asciinema/commands/record.py and asciinema/commands/play.py: `rec` of a file, then `play` of it.
use asciinema.Base.{ℕ, ◌+◌, Option, some, ◌∷◌, length, map, Text, ℤ, ◌≡◌}
use asciinema.Asciicast.Json.{Json, get_field}
use asciinema.Asciicast.Opening.{open_recording}
use asciinema.Asciicast.V2.Writer.{Header}
use asciinema.Player.Defs.{Host}
use asciinema.Recorder.Call.{Arguments, Machine, sent_events}
use asciinema.Commands.Play.{Options, limit, limit_of}
use asciinema.Commands.Record as Record
use asciinema.Commands.Record.{Outcome, exits}
use asciinema.Commands.Saved.{fields_of}
use asciinema.Replay.Play.{IsDefault, Plays}

-- The limit that a header stores is a number or missing.
abbrev HasLimit : Option ℤ → Header → Type 0
HasLimit l h = limit_of (get_field "idle_time_limit" (fields_of h)) ≡ limit l

-- `rec` has ended with the status 0, and `play` of the lines of its file shows this text and ends.
abbrev pub PlaysAgain : Options → Host → Machine → ℕ → Text → Outcome → Type 0
PlaysAgain o player m fuel shown (exits status (some (v ∷ vs)) ms) =
    (status ≡ 0)
    × Plays m.loads o player fuel (open_recording m.loads (m.dumps v) (map m.dumps vs)) shown
PlaysAgain o player m fuel shown _ = ⊥

module _ (m : Machine) (a : Arguments) (o : Options) (player : Host) (default : IsDefault o) where
  abbrev fuel : ℕ
  fuel = length (sent_events m a) + 3
