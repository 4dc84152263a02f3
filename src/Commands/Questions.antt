-- ===== src/Commands/Questions.antt =====
-- asciinema/commands/record.py: the question what to do with a recording that has no file name.
use asciinema.Base.{
  ℕ, zero, suc, true, false, Option, none, List, [], ◌∷◌, ◌++◌, bytes_eq, ◌≡◌, refl,
}
use asciinema.Commands.Record.{
  Message, question, Options, Answer, typed, waiting, Uploaded, choice_of, ask, finish,
  finish_choice, is_interactive,
}
use asciinema.Asciicast.Json.{Json}

-- At the end of the input every `readline` gives the empty text.
abbrev pub ends_of_input : ℕ → List Answer
ends_of_input zero = []
ends_of_input (suc n) = typed [] ∷ ends_of_input n

abbrev pub questions : ℕ → List Message
questions zero = question ∷ []
questions (suc n) = question ∷ questions n

ask-ends_of_input :
    (o : Options) (n : ℕ)
    → ask o (ends_of_input n) ≡ record { choice = none; printed = questions n }
unfolding ask choice_of bytes_eq
ask-ends_of_input o zero = refl
ask-ends_of_input o (suc n) = rw (ask-ends_of_input o n) refl

-- Where there is no file name, and neither `--yes` nor `--quiet`: when the input has come to its
-- end, the question is asked again for every read, and no number of them ends the command.
pub finish-ends_of_input :
    (o : Options) (up : Uploaded) (n : ℕ) (file : Option (List Json)) (ms : List Message)
    → is_interactive o ≡ true
    → o.assume_yes ≡ false
    → finish o up (ends_of_input n) file ms ≡ waiting file (ms ++ questions n)
unfolding finish finish_choice
finish-ends_of_input o up n file ms i y = rw (i, y, ask-ends_of_input o n) refl
