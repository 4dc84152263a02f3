-- ===== src/Asciicast/Tests.antt =====
-- Runs of the readers of asciinema/asciicast.
use asciinema.Base.{none, [], ◌∷◌, pos, true, ◌≡◌, refl}
use asciinema.Asciicast.Json.{Fields, field, end, int, float, arr, str, cons, nil}
use asciinema.Asciicast.Events.{to_relative_time}
use asciinema.Asciicast.V1 as V1
use asciinema.Asciicast.V1.{wants_output, stdout_events, events-delays}

-- A version 1 file of one line.
abbrev fields : Fields
fields = field "version" (int (pos 1)) (
    field "stdout" (arr (cons (arr (cons (float (pos 500)) (cons (str (b'x' ∷ [])) nil))) nil)) end)

abbrev recording : V1.Asciicast
recording = record { attrs = fields }

all_wanted : wants_output none ≡ true
unfolding wants_output
all_wanted = refl

delays_kept : to_relative_time (V1.events none recording) ≡ stdout_events recording
delays_kept = events-delays none recording all_wanted
