-- ===== src/Commands/Cat/Tests.antt =====
-- `cat` of two texts, where the second write fails.
use asciinema.Base.{
  ℕ, ◌==◌, ◌+◌, Bool, true, false, some, none, [], ◌∷◌, ◌++◌, length, take, Option, Text, pos, ◌≡◌,
  refl, arith,
}
use asciinema.Asciicast.Json.{Json, Fields, field, end, int, float, arr, str, cons, nil}
use asciinema.Asciicast.V1 as V1
use asciinema.Asciicast.Opening.{Recording, v1}
use asciinema.Asciicast.V2.Reader.{returned}
use asciinema.Asciicast.Frames.{recording_events}
use asciinema.Commands.Cat.{status, execute}
use asciinema.Commands.Cat.Again.{texts, execute-prints_twice}

abbrev item : Text → Json
item text = arr (cons (float (pos 500)) (cons (str text) nil))

abbrev fields : Fields
fields =
    field "version" (int (pos 1))
      (field "stdout" (arr (cons (item (b'x' ∷ [])) (cons (item (b'y' ∷ [])) nil))) end)

abbrev recording : Recording
recording = v1 (record { attrs = fields })

abbrev loads : Text → Option Json
loads t = none

abbrev second_fails : ℕ → Bool
second_fails n = n == 1

clean : (recording_events loads (some (b'o' ∷ [])) recording).raises ≡ false
unfolding recording_events V1.events
clean = refl

two_frames : length (recording_events loads (some (b'o' ∷ [])) recording).frames ≡ 2
unfolding recording_events V1.events
two_frames = refl

execute-prints_twice_example :
    execute second_fails loads true (returned recording ∷ []) (returned recording ∷ [])
    ≡ status 0 (record {
      shown =
          take 2 (texts (recording_events loads (some (b'o' ∷ [])) recording).frames)
          ++ texts (recording_events loads (some (b'o' ∷ [])) recording).frames;
      pending = [];
      writes = 1 + 1 + length (recording_events loads (some (b'o' ∷ [])) recording).frames;
      errors = 0;
    })
execute-prints_twice_example =
    execute-prints_twice second_fails 1 refl (λ n h. h) loads recording clean
      (omega (arith, two_frames))
