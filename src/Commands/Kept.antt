-- ===== src/Commands/Kept.antt =====
-- asciinema/commands/record.py: what happens to a recording that exists already.
use mathlib.Core.Path.{subst}
use asciinema.Base.{
  ltb, ◌&&◌, not, Bool, true, false, Option, none, some, List, [], ◌++◌, append-nil, ◌<◌, arith,
  ◌≡◌, refl, sym, ap, if_rule,
}
use asciinema.Asciicast.Json.{Json}
use asciinema.Commands.Record.{
  Message, info, recording_finished, saved, Options, Place, Checked, refused, accepted,
  check_existing, check_path, check, is_interactive, is_stdout, Recorded, recorded, io_error,
  load_error, other_error, unfinished, Answer, Uploaded, Outcome, exits, escapes, recording,
  waiting, finish, after_record, go_on, execute, target,
}

-- The file starts with what it held.
abbrev pub StartsWith : List Json → Option (List Json) → Type 0
StartsWith old file = (new : List Json) × (file ≡ some (old ++ new))

abbrev pub file_of : Recorded → Option (List Json)
file_of (recorded file) = file
file_of (io_error file) = file
file_of (load_error file) = file
file_of unfinished = none
file_of (other_error file) = file

-- The command has ended, with a file that starts with what it held.
abbrev pub Kept : List Json → Outcome → Type 0
Kept old (exits status file ms) = StartsWith old file
Kept old (escapes file ms) = StartsWith old file
Kept old (recording ms) = ⊥
Kept old (waiting file ms) = ⊥

-- A check that refuses, or lets the recording append.
abbrev Appends : List Json → Checked → Type 0
Appends old (refused ms) = Unit
Appends old (accepted append left ms) = (append ≡ true) × (left ≡ some old)

check_existing-Appends :
    (o : Options) (place : Place) (old : List Json)
    → o.overwrite ≡ false
    → ltb 0 place.size ≡ true
    → Appends old (check_existing o place old)
unfolding check_existing
check_existing-Appends o place old h k =
    if_rule (Appends old) (not place.writable) _ _ (λ e. tt)
      λ e₁.
        if_rule (Appends old) (ltb 0 place.size && o.overwrite) _ _ (λ e. cc)
          λ e₂.
            if_rule (Appends old) (ltb 0 place.size && not o.append) _ _ (λ e. tt)
              λ e. (ground (arith, e, k), refl)

finish-Kept :
    (o : Options) (up : Uploaded) (answers : List Answer) (old : List Json)
    (file : Option (List Json)) (ms : List Message)
    → is_interactive o ≡ false
    → StartsWith old file
    → Kept old (finish o up answers file ms)
unfolding finish
finish-Kept o up answers old file ms h k = rw h (
    if_rule (Kept old) (is_stdout o) (exits 0 file ms) (exits 0 file (ms ++ info o saved)) (λ e. k)
      (λ e. k))

after_record-Kept :
    (o : Options) (up : Uploaded) (answers : List Answer) (old : List Json) (r : Recorded)
    (ms : List Message)
    → is_interactive o ≡ false
    → StartsWith old (file_of r)
    → Kept old (after_record o up answers r ms)
unfolding after_record
after_record-Kept o up answers old (recorded file) ms h k =
    finish-Kept o up answers old file (ms ++ info o recording_finished) h k
after_record-Kept o up answers old (io_error file) ms h k = k
after_record-Kept o up answers old (load_error file) ms h k = k
after_record-Kept o up answers old unfinished ms h (new, e) = absurd cc
after_record-Kept o up answers old (other_error file) ms h k = k

go_on-Kept :
    (record_ : Bool → Option (List Json) → Recorded) (o : Options) (up : Uploaded)
    (answers : List Answer) (old : List Json) (c : Checked)
    → StartsWith old (file_of (record_ true (some old)))
    → is_interactive o ≡ false
    → Appends old c
    → Kept old (go_on record_ o up answers (some old) c)
unfolding go_on
go_on-Kept record_ o up answers old (refused ms) keeps h k = ([], ap some (sym (append-nil old)))
go_on-Kept record_ o up answers old (accepted append left ms) keeps h (a, l) =
    after_record-Kept o up answers old (record_ append left) _ h (
      subst (λ b. StartsWith old (file_of (record_ b left))) (sym a)
        (subst (λ f. StartsWith old (file_of (record_ true f))) (sym l) keeps))

lt→ltb : (place : Place) → 0 < place.size → ltb 0 place.size ≡ true
lt→ltb place h = ground arith

check-Appends :
    (o : Options) (tty : Bool) (tmp place : Place) (old : List Json)
    → is_interactive o ≡ false
    → is_stdout o ≡ false
    → o.overwrite ≡ false
    → place.content ≡ some old
    → 0 < place.size
    → Appends old (check o tty tmp place)
unfolding check check_path
check-Appends o tty tmp place old i s h c k =
    rw (i, s, c) (check_existing-Appends o place old h (lt→ltb place k))

target_named :
    (record_ : Bool → Option (List Json) → Recorded) (o : Options) (tmp place : Place)
    (old : List Json)
    → is_interactive o ≡ false
    → is_stdout o ≡ false
    → place.content ≡ some old
    → target record_ o tmp place ≡ some old
target_named record_ o tmp place old i s c = rw (i, s) c

-- A recording in a file with a name is not empty, and `--overwrite` is not given. If what
-- `recorder.record` appends to a file leaves what is there at its beginning, then the command ends,
-- without a question or by an exception, and the file still starts with what it held, whatever the command refuses and
-- whichever exception is raised.
pub execute-Kept :
    (record_ : Bool → Option (List Json) → Recorded) (o : Options) (tty : Bool) (tmp place : Place)
    (up : Uploaded) (answers : List Answer) (old : List Json)
    → ((content : List Json) → StartsWith content (file_of (record_ true (some content))))
    → is_interactive o ≡ false
    → is_stdout o ≡ false
    → o.overwrite ≡ false
    → place.content ≡ some old
    → 0 < place.size
    → Kept old (execute record_ o tty tmp place up answers)
unfolding execute
execute-Kept record_ o tty tmp place up answers old keeps i s h c k =
    subst (λ f. Kept old (go_on record_ o up answers f (check o tty tmp place)))
      (sym (target_named record_ o tmp place old i s c))
      (go_on-Kept record_ o up answers old (check o tty tmp place) (keeps old) i
        (check-Appends o tty tmp place old i s h c k))
